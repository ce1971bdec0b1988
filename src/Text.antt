-- ===== src/Text.antt =====
-- The regular expressions that src/agent_harness/candidate.py, workspace.py and plugin_service.py
-- match whole texts with.
use Prim.Native.Char.{Char, code}
use Prim.Native.String.append
use Prim.Native.String.{◌++◌ as append_text}
use sdlc_harness.Prelude.{
  ◌≡◌, ap, ◌∙◌, arith, ℕ, zero, suc, String, Bool, true, false, ◌&&◌, ◌||◌, Option, none, some, eqb,
  leb, if◌then◌else◌,
}

abbrev pub is_digit : Char → Bool
is_digit c = leb 48 (code c) && leb (code c) 57

-- [0-9a-f]
abbrev pub is_hex : Char → Bool
is_hex c = is_digit c || (leb 97 (code c) && leb (code c) 102)

-- [0-9a-f]{n}
unfoldable pub is_hex_text : ℕ → String → Bool
is_hex_text zero String.[] = true
is_hex_text zero (String.◌∷◌ c s) = false
is_hex_text (suc n) String.[] = false
is_hex_text (suc n) (String.◌∷◌ c s) = is_hex c && is_hex_text n s

-- [A-Za-z0-9_.-]
abbrev pub is_safe : Char → Bool
is_safe c =
    is_digit c
    || ((leb 65 (code c) && leb (code c) 90)
        || ((leb 97 (code c) && leb (code c) 122)
            || (eqb (code c) 95 || (eqb (code c) 46 || eqb (code c) 45))))

abbrev pub all_safe : String → Bool
all_safe String.[] = true
all_safe (String.◌∷◌ c s) = is_safe c && all_safe s

-- ^[A-Za-z0-9_.-]+$
unfoldable pub is_safe_text : String → Bool
is_safe_text String.[] = false
is_safe_text (String.◌∷◌ c s) = is_safe c && all_safe s

-- the text after a prefix
unfoldable pub after_prefix : String → String → Option String
after_prefix String.[] s = some s
after_prefix (String.◌∷◌ c p) String.[] = none
after_prefix (String.◌∷◌ c p) (String.◌∷◌ d s) =
    if eqb (code c) (code d) then after_prefix p s else none

eqb_same : (n : ℕ) → eqb n n ≡ true
eqb_same n = ground arith

-- A text that begins with a prefix goes on after it.
pub after_prefix-append : (p s : String) → after_prefix p (append_text p s) ≡ some s
unfolding after_prefix
after_prefix-append String.[] s = ap (after_prefix String.[]) (append.nil s)
after_prefix-append (String.◌∷◌ c p) s =
    ap (after_prefix (String.◌∷◌ c p)) (append.cons c p s) ∙ rw eqb_same (after_prefix-append p s)
