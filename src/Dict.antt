-- ===== src/Dict.antt =====
-- A Python `dict` with text keys, in insertion order.
use sdlc_harness.Prelude.{
  String, ◌≡◌, refl, Option, none, some, List, [], ◌∷◌, ◌==◌, eq_iff, eq_refl, arith, if◌then◌else◌,
  map, contains, is_some, true, false, ap, ◌∙◌, sym, ◌++◌, Bool-cases, inl, inr,
}

abbrev pub Dict {ℓ} : Type ℓ → Type ℓ
Dict V = List (String × V)

module _ {ℓ} {V : Type ℓ} where
  -- d.get(k)
  abbrev pub get : String → Dict V → Option V
  get k [] = none
  get k ((j, v) ∷ d) = if j == k then some v else get k d

  -- d[k] = v: an old key keeps its place
  abbrev pub put : String → V → Dict V → Dict V
  put k v [] = (k, v) ∷ []
  put k v ((j, w) ∷ d) = if j == k then (j, v) ∷ d else (j, w) ∷ put k v d

  abbrev pub keys : Dict V → List String
  keys d = map (λ e. e.0) d

  abbrev pub values : Dict V → List V
  values d = map (λ e. e.1) d

  -- What a dict holds after an assignment.
  pub get-put :
      (k j : String) (v : V) (d : Dict V) → get j (put k v d) ≡ (if k == j then some v else get j d)
  get-put k j v [] = refl
  get-put k j v ((i, w) ∷ d) = ground (arith, eq_iff k j, eq_iff i k, eq_iff i j, get-put k j v d)

  pub get-put_self : (k : String) (v : V) (d : Dict V) → get k (put k v d) ≡ some v
  get-put_self k v d = simp (get-put, eq_refl)

  pub contains-keys : (k : String) (d : Dict V) → contains k (keys d) ≡ is_some (get k d)
  contains-keys k [] = refl
  contains-keys k ((j, v) ∷ d) = ground (arith, contains-keys k d)

  -- An assignment adds its key to the keys, and removes none.
  pub keys-put :
      (k j : String) (v : V) (d : Dict V)
      → contains j (keys (put k v d)) ≡ (if k == j then true else contains j (keys d))
  keys-put k j v d =
      contains-keys j (put k v d)
      ∙ (ap is_some (get-put k j v d) ∙ ground (arith, contains-keys j d))

  get-map :
      (k : String) (f : V → V) (d : Dict V)
      → get k (map (λ e. (e.0, f e.1)) d) ≡ elim (get k d) [ none ↦ none | some v ↦ some (f v) ]
  get-map k f [] = refl
  get-map k f ((j, v) ∷ d) = elim (Bool-cases (j == k)) [
    | inl same ↦ rw same refl
    | inr other ↦ rw other (get-map k f d)
  ]

  -- each value is under the key that it names, and no key is twice in the dict
  abbrev pub IsKeyed : (V → String) → Dict V → Type 0
  IsKeyed id [] = Unit
  IsKeyed id ((k, v) ∷ d) = (id v ≡ k) × (contains k (keys d) ≡ false) × IsKeyed id d

  pub put-IsKeyed :
      (id : V → String) (k : String) (v : V) (d : Dict V)
      → id v ≡ k
      → IsKeyed id d
      → IsKeyed id (put k v d)
  put-IsKeyed id k v [] named h = (named, refl, tt)
  put-IsKeyed id k v ((j, w) ∷ d) named (here, new, rest) = elim (Bool-cases (j == k)) [
    | inl same ↦ rw same (named ∙ sym ((eq_iff j k).0 same), new, rest)
    | inr other ↦ rw other (
      here,
      keys-put k j v d ∙ ground (arith, eq_iff k j, eq_iff j k),
      put-IsKeyed id k v d named rest,
    )
  ]

  pub map-IsKeyed :
      (id : V → String) (f : V → V) (d : Dict V)
      → ((v : V) → id (f v) ≡ id v)
      → IsKeyed id d
      → IsKeyed id (map (λ e. (e.0, f e.1)) d)
  map-IsKeyed id f [] same h = tt
  map-IsKeyed id f ((k, v) ∷ d) same (here, new, rest) = (
    same v ∙ here,
    contains-keys k _ ∙ (ap is_some (get-map k f d) ∙ ground (arith, contains-keys k d)),
    map-IsKeyed id f d same rest,
  )

  -- A key that is new is added at the end.
  pub put-new :
      (k : String) (v : V) (d : Dict V) → contains k (keys d) ≡ false → put k v d ≡ d ++ (k, v) ∷ []
  put-new k v [] new = refl
  put-new k v ((j, w) ∷ d) new = ground (arith, put-new k v d)

  -- The value that a key of such a dict has names the key.
  pub get-IsKeyed :
      (id : V → String) (k : String) (d : Dict V) {v : V}
      → IsKeyed id d
      → get k d ≡ some v
      → id v ≡ k
  get-IsKeyed id k [] h e = absurd (ground arith)
  get-IsKeyed id k ((j, w) ∷ d) {v} (here, new, rest) e = elim (Bool-cases (j == k)) [
    | inl same ↦ let w' : w ≡ v = ground arith in ap id (sym w') ∙ (here ∙ (eq_iff j k).0 same)
    | inr other ↦ get-IsKeyed id k d rest (ground arith)
  ]
