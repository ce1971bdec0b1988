-- ===== src/Sets/Order.antt =====
-- The order of texts, and lists that are sorted already.
use Prim.Native.Char.{code}
use Prim.Native.Nat.{Ordering, compare as compare_ℕ}
use Prim.Native.Nat.compare as compare_ℕ
use Prim.Native.String.compare
use Prim.Native.String.{compare, then as first_of}
use text.Mathlib.Text.{is_eq}
use text.Mathlib.TextPositions.{compare_self}
use sdlc_harness.Prelude.{
  ℕ, zero, suc, String, ◌≡◌, refl, sym, ap, ◌∙◌, subst, Bool, true, false, ◌||◌, List, [], ◌∷◌,
  ◌==◌, eq_iff, arith, contains, Bool-cases, inl, inr,
}
use sdlc_harness.Dict.{Dict, keys}
use sdlc_harness.Sets.{
  precedes, precedes_irrefl, insert_sorted, sorted_set, insert_item, sort_items,
}

abbrev flip : Ordering → Ordering
flip Ordering.lt = Ordering.gt
flip Ordering.eq = Ordering.eq
flip Ordering.gt = Ordering.lt

compare_ℕ_swap : (m n : ℕ) → compare_ℕ n m ≡ flip (compare_ℕ m n)
compare_ℕ_swap zero zero = compare_self zero ∙ sym (ap flip (compare_self zero))
compare_ℕ_swap zero (suc n) = compare_ℕ.suc-zero n ∙ sym (ap flip (compare_ℕ.zero-suc n))
compare_ℕ_swap (suc m) zero = compare_ℕ.zero-suc m ∙ sym (ap flip (compare_ℕ.suc-zero m))
compare_ℕ_swap (suc m) (suc n) =
    compare_ℕ.suc-suc n m ∙ (compare_ℕ_swap m n ∙ sym (ap flip (compare_ℕ.suc-suc m n)))

flip-first_of : (o r : Ordering) → first_of (flip o) (flip r) ≡ flip (first_of o r)
flip-first_of Ordering.lt r = refl
flip-first_of Ordering.eq r = refl
flip-first_of Ordering.gt r = refl

compare_swap : (s t : String) → compare t s ≡ flip (compare s t)
compare_swap String.[] String.[] = compare.nil-nil ∙ sym (ap flip (compare.nil-nil))
compare_swap String.[] (String.◌∷◌ d t) =
    compare.cons-nil d t ∙ sym (ap flip (compare.nil-cons d t))
compare_swap (String.◌∷◌ c s) String.[] =
    compare.nil-cons c s ∙ sym (ap flip (compare.cons-nil c s))
compare_swap (String.◌∷◌ c s) (String.◌∷◌ d t) =
    compare.cons-cons d c t s
    ∙ (ap (λ o. first_of o (compare t s)) (compare_ℕ_swap (code c) (code d))
        ∙ (ap (λ r. first_of (flip (compare_ℕ (code c) (code d))) r) (compare_swap s t)
            ∙ (flip-first_of (compare_ℕ (code c) (code d)) (compare s t)
                ∙ sym (ap flip (compare.cons-cons c d s t)))))

comes_first : (o : Ordering) → Bool
comes_first o = elim o [ Ordering.lt ↦ true | _ ↦ false ]

lt_flip : (o : Ordering) → comes_first o ≡ true → comes_first (flip o) ≡ false
unfolding comes_first
lt_flip Ordering.lt h = refl
lt_flip Ordering.eq h = refl
lt_flip Ordering.gt h = absurd (cc)

precedes_asym : (s t : String) → precedes s t ≡ true → precedes t s ≡ false
unfolding comes_first
precedes_asym s t h = ap comes_first (compare_swap s t) ∙ lt_flip (compare s t) h

eq_flip : (o : Ordering) → is_eq o ≡ false → comes_first o ≡ false → comes_first (flip o) ≡ true
unfolding comes_first
eq_flip Ordering.lt e h = absurd (cc)
eq_flip Ordering.eq e h = absurd (cc)
eq_flip Ordering.gt e h = refl

precedes_total : (s t : String) → (s == t) ≡ false → precedes s t ≡ false → precedes t s ≡ true
unfolding comes_first
precedes_total s t n h = ap comes_first (compare_swap s t) ∙ eq_flip (compare s t) n h

-- Sorting a list again changes nothing.
abbrev pub IsAscending : List String → Type 0
IsAscending [] = Unit
IsAscending (x ∷ []) = Unit
IsAscending (x ∷ y ∷ ys) = (precedes x y ≡ true) × IsAscending (y ∷ ys)

other : (x y : String) → precedes x y ≡ true → (x == y) ≡ false
other x y h = elim (Bool-cases (x == y)) [
  | inr n ↦ n
  | inl e ↦
      let p = (eq_iff x y).0 e in
      absurd (ground (arith, precedes_irrefl x, subst (λ z. precedes x z ≡ true) (sym p) h))
]

insert_least : (x : String) (ys : List String) → IsAscending (x ∷ ys) → insert_sorted x ys ≡ x ∷ ys
unfolding insert_sorted
insert_least x [] h = refl
insert_least x (y ∷ ys) h = rw (other x y h.0, h.0) refl

IsAscending-tail : (x : String) (ys : List String) → IsAscending (x ∷ ys) → IsAscending ys
IsAscending-tail x [] h = tt
IsAscending-tail x (y ∷ ys) h = h.1

pub sorted_set-IsAscending : (xs : List String) → IsAscending xs → sorted_set xs ≡ xs
unfolding sorted_set
sorted_set-IsAscending [] h = refl
sorted_set-IsAscending (x ∷ xs) h =
    ap (insert_sorted x) (sorted_set-IsAscending xs (IsAscending-tail x xs h)) ∙ insert_least x xs h

-- An element that is put after a smaller one.
insert_after :
    (x y : String) (ys : List String)
    → precedes y x ≡ true
    → IsAscending (y ∷ ys)
    → IsAscending (insert_sorted x ys)
    → IsAscending (y ∷ insert_sorted x ys)
unfolding insert_sorted
insert_after x y [] before h a = (before, tt)
insert_after x y (z ∷ ys) before h a = elim (Bool-cases (x == z)) [
  | inl same ↦ rw same h
  | inr n ↦ elim (Bool-cases (precedes x z)) [
    | inl first ↦ rw (n, first) (before, (first, h.1))
    | inr later ↦ rw (n, later) (h.0, rw (n, later) at a)
  ]
]

insert_sorted-IsAscending :
    (x : String) (ys : List String) → IsAscending ys → IsAscending (insert_sorted x ys)
unfolding insert_sorted
insert_sorted-IsAscending x [] h = tt
insert_sorted-IsAscending x (y ∷ ys) h = elim (Bool-cases (x == y)) [
  | inl same ↦ rw same h
  | inr n ↦ elim (Bool-cases (precedes x y)) [
    | inl first ↦ rw (n, first) (first, h)
    | inr later ↦
        rw (n, later)
          (insert_after x y ys (precedes_total x y n later) h
            (insert_sorted-IsAscending x ys (IsAscending-tail y ys h)))
  ]
]

pub IsAscending-sorted_set : (xs : List String) → IsAscending (sorted_set xs)
unfolding sorted_set
IsAscending-sorted_set [] = tt
IsAscending-sorted_set (x ∷ xs) =
    insert_sorted-IsAscending x (sorted_set xs) (IsAscending-sorted_set xs)

module _ {ℓ} {V : Type ℓ} where
  -- no key is twice in the dict
  abbrev pub IsDict : Dict V → Type 0
  IsDict [] = Unit
  IsDict ((k, v) ∷ d) = (contains k (keys d) ≡ false) × IsDict d

  keys-insert_item :
      (e : String × V) (d : Dict V)
      → contains e.0 (keys d) ≡ false
      → keys (insert_item e d) ≡ insert_sorted e.0 (keys d)
  unfolding insert_item insert_sorted
  keys-insert_item e [] new = refl
  keys-insert_item e (f ∷ d) new =
      let n : (f.0 == e.0) ≡ false = ground arith in
      let n' : (e.0 == f.0) ≡ false = ground (arith, eq_iff e.0 f.0, eq_iff f.0 e.0) in
      elim (Bool-cases (precedes f.0 e.0)) [
        | inl before ↦
            rw (before, n', precedes_asym f.0 e.0 before)
              (ap (λ ks. f.0 ∷ ks) (keys-insert_item e d (ground arith)))
        | inr after ↦ rw (after, n', precedes_total f.0 e.0 n after) refl
      ]

  contains-keys-insert_item :
      (k : String) (e : String × V) (d : Dict V)
      → contains k (keys (insert_item e d)) ≡ ((e.0 == k) || contains k (keys d))
  unfolding insert_item
  contains-keys-insert_item k e [] = refl
  contains-keys-insert_item k e (f ∷ d) = elim (Bool-cases (precedes f.0 e.0)) [
    | inl before ↦ rw before (ground (arith, contains-keys-insert_item k e d))
    | inr after ↦ rw after refl
  ]

  pub contains-keys-sort_items :
      (k : String) (d : Dict V) → contains k (keys (sort_items d)) ≡ contains k (keys d)
  unfolding sort_items
  contains-keys-sort_items k [] = refl
  contains-keys-sort_items k (e ∷ d) =
      contains-keys-insert_item k e (sort_items d)
      ∙ ap (λ b. (e.0 == k) || b) (contains-keys-sort_items k d)

  pub keys-sort_items : (d : Dict V) → IsDict d → keys (sort_items d) ≡ sorted_set (keys d)
  unfolding sort_items sorted_set
  keys-sort_items [] h = refl
  keys-sort_items (e ∷ d) h =
      keys-insert_item e (sort_items d) (contains-keys-sort_items e.0 d ∙ h.0)
      ∙ ap (insert_sorted e.0) (keys-sort_items d h.1)

  insert_item-IsDict :
      (e : String × V) (d : Dict V)
      → contains e.0 (keys d) ≡ false
      → IsDict d
      → IsDict (insert_item e d)
  unfolding insert_item
  insert_item-IsDict e [] new h = (refl, tt)
  insert_item-IsDict e (f ∷ d) new h = elim (Bool-cases (precedes f.0 e.0)) [
    | inl before ↦ rw before (
      contains-keys-insert_item f.0 e d ∙ ground (arith, h.0, eq_iff e.0 f.0, eq_iff f.0 e.0),
      insert_item-IsDict e d (ground arith) h.1,
    )
    | inr after ↦ rw after (new, h)
  ]

  pub sort_items-IsDict : (d : Dict V) → IsDict d → IsDict (sort_items d)
  unfolding sort_items
  sort_items-IsDict [] h = tt
  sort_items-IsDict (e ∷ d) h =
      insert_item-IsDict e (sort_items d) (contains-keys-sort_items e.0 d ∙ h.0)
        (sort_items-IsDict d h.1)

  insert_item_least :
      (e : String × V) (d : Dict V) → IsAscending (e.0 ∷ keys d) → insert_item e d ≡ e ∷ d
  unfolding insert_item
  insert_item_least e [] h = refl
  insert_item_least e (f ∷ d) h = rw (precedes_asym e.0 f.0 h.0) refl

  pub sort_items-IsAscending : (d : Dict V) → IsAscending (keys d) → sort_items d ≡ d
  unfolding sort_items
  sort_items-IsAscending [] h = refl
  sort_items-IsAscending (e ∷ d) h =
      ap (insert_item e) (sort_items-IsAscending d (IsAscending-tail e.0 (keys d) h))
      ∙ insert_item_least e d h
