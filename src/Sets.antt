-- ===== src/Sets.antt =====
-- Python's `sorted(set(...))` on texts: a list in ascending order with no repeats.
pub mod Order
use Prim.Native.String.{compare}
use Prim.Native.Nat.{Ordering}
use sdlc_harness.Prelude.{
  String, ◌≡◌, refl, ap, ◌∙◌, Bool, true, false, ◌||◌, ◌&&◌, not, Bool-cases, inl, inr, List, [],
  ◌∷◌, ◌==◌, eq_iff, arith, contains, if◌then◌else◌, All, some, sym, subst,
}
use text.Mathlib.TextPositions.{compare_refl}
use sdlc_harness.Dict.{get}

abbrev pub precedes : String → String → Bool
precedes a b = elim (compare a b) [ Ordering.lt ↦ true | _ ↦ false ]

unfoldable pub insert_sorted : String → List String → List String
insert_sorted x [] = x ∷ []
insert_sorted x (y ∷ ys) =
    if x == y then y ∷ ys else if precedes x y then x ∷ y ∷ ys else y ∷ insert_sorted x ys

unfoldable pub sorted_set : List String → List String
unfolding insert_sorted
sorted_set [] = []
sorted_set (x ∷ xs) = insert_sorted x (sorted_set xs)

contains-insert_sorted :
    (x y : String) (ys : List String)
    → contains x (insert_sorted y ys) ≡ ((y == x) || contains x ys)
unfolding insert_sorted
contains-insert_sorted x y [] = refl
contains-insert_sorted x y (z ∷ ys) =
    ground (arith, eq_iff y z, contains-insert_sorted x y ys, ap (λ k. k == x) {x = y} {y = z})

-- Sorting keeps the elements.
pub contains-sorted_set :
    (x : String) (xs : List String) → contains x (sorted_set xs) ≡ contains x xs
unfolding sorted_set
contains-sorted_set x [] = refl
contains-sorted_set x (y ∷ xs) =
    contains-insert_sorted x y (sorted_set xs) ∙ ap (λ b. (y == x) || b) (contains-sorted_set x xs)

-- no element in common
abbrev pub disjoint : List String → List String → Bool
disjoint [] ys = true
disjoint (x ∷ xs) ys = not (contains x ys) && disjoint xs ys

pub disjoint_sound :
    (r : String) (xs ys : List String)
    → disjoint xs ys ≡ true
    → contains r xs ≡ true
    → contains r ys ≡ false
disjoint_sound r [] ys d h = cc
disjoint_sound r (x ∷ xs) ys d h = elim (Bool-cases (x == r)) [
  | inl e ↦ rw (← (eq_iff x r).0 e) (ground arith)
  | inr n ↦ disjoint_sound r xs ys (ground arith) (ground arith)
]

pub precedes_irrefl : (x : String) → precedes x x ≡ false
precedes_irrefl x = ap (λ o. elim o [ Ordering.lt ↦ true | _ ↦ false ]) (compare_refl x)

-- `sorted(d.items())` of a dict: its keys are distinct, so the values are not compared
module _ {ℓ} {V : Type ℓ} where
  unfoldable pub insert_item : String × V → List (String × V) → List (String × V)
  insert_item e [] = e ∷ []
  insert_item e (f ∷ rest) = if precedes f.0 e.0 then f ∷ insert_item e rest else e ∷ f ∷ rest

  unfoldable pub sort_items : List (String × V) → List (String × V)
  unfolding insert_item
  sort_items [] = []
  sort_items (e ∷ rest) = insert_item e (sort_items rest)

  All-insert_item {κ} :
      (P : String × V → Type κ) (e : String × V) (d : List (String × V))
      → P e
      → All P d
      → All P (insert_item e d)
  unfolding insert_item
  All-insert_item P e [] p h = (p, tt)
  All-insert_item P e (f ∷ d) p h = elim (Bool-cases (precedes f.0 e.0)) [
    | inl before ↦ rw before (h.0, All-insert_item P e d p h.1)
    | inr after ↦ rw after (p, h)
  ]

  -- Sorting keeps a property of all the items.
  pub All-sort_items {κ} :
      (P : String × V → Type κ) (d : List (String × V)) → All P d → All P (sort_items d)
  unfolding sort_items
  All-sort_items P [] h = tt
  All-sort_items P (e ∷ d) h = All-insert_item P e (sort_items d) h.0 (All-sort_items P d h.1)

  get-insert_item :
      (k : String) (e : String × V) (d : List (String × V))
      → get k (insert_item e d) ≡ (if e.0 == k then some e.1 else get k d)
  unfolding insert_item
  get-insert_item k e [] = refl
  get-insert_item k e (f ∷ d) = elim (Bool-cases (precedes f.0 e.0)) [
    | inr after ↦ rw after refl
    | inl before ↦ elim (Bool-cases (e.0 == k)) [
      | inr other ↦ rw (before, other) (rw (get-insert_item k e d) (rw other refl))
      | inl same ↦ elim (Bool-cases (f.0 == k)) [
        | inr other ↦ rw (before, same) (rw (other, get-insert_item k e d) (rw same refl))
        | inl also ↦
            let e' : f.0 ≡ e.0 = (eq_iff f.0 k).0 also ∙ sym ((eq_iff e.0 k).0 same) in
            absurd
              (ground (arith, precedes_irrefl e.0, subst (λ x. precedes x e.0 ≡ true) e' before))
      ]
    ]
  ]

  -- A dict holds the same when its items are sorted.
  pub get-sort_items : (k : String) (d : List (String × V)) → get k (sort_items d) ≡ get k d
  unfolding sort_items
  get-sort_items k [] = refl
  get-sort_items k (e ∷ d) =
      get-insert_item k e (sort_items d)
      ∙ ap (λ o. if e.0 == k then some e.1 else o) (get-sort_items k d)
