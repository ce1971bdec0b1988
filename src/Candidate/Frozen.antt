-- ===== src/Candidate/Frozen.antt =====
-- src/agent_harness/candidate.py: a candidate that is frozen can be verified and read again.
use sdlc_harness.Prelude.{
  ℕ, String, ◌≡◌, refl, sym, ap, ◌∙◌, subst, true, false, Option, none, some, List, [], ◌∷◌, ◌==◌,
  eq_iff, eq_refl, map, Result, ok, err, ◌>>=◌, arith, Bool-cases, inl, inr, contains, is_some,
  Result-cases, All,
}
use sdlc_harness.Dict.{Dict, get, keys, get-put_self}
use sdlc_harness.Sets.{sorted_set, sort_items}
use sdlc_harness.Sets.Order.{
  IsDict, IsAscending, keys-sort_items, sort_items-IsDict, sorted_set-IsAscending,
  IsAscending-sorted_set, sort_items-IsAscending,
}
use sdlc_harness.Text.{is_hex_text, after_prefix-append}
use sdlc_harness.Candidate.{Candidate, CandidateManifest}
use sdlc_harness.Candidate.Tree.{StoreError, Root, missing, scan_all, scan_inputs}
use sdlc_harness.Candidate.Store.{
  Store, Identity, root_at, check_snapshot, verify_snapshot, is_candidate_id, is_digest,
  identity_of, get_candidate, read_candidate, read_state,
}
use sdlc_harness.Candidate.Freeze.{
  manifest_for, stored_for, candidate_for, add_candidate, frozen_in, new_manifest, freeze_candidate,
}
use sdlc_harness.Candidate.Verified.{
  same_manifest_refl, same_files_refl, opt_eq_refl, eqb_refl, id_of, labelled,
}

-- each entry of a dict is what the dict holds under its key
pub holds_own : (d : Dict Root) → IsDict d → All (λ e. get e.0 d ≡ some e.1) d
holds_own [] i = tt
holds_own ((k, r) ∷ d) (new, i) = (simp eq_refl, later d d k r new (holds_own d i) new)
  where
    later :
        (d rest : Dict Root) (k : String) (r : Root)
        → contains k (keys d) ≡ false
        → All (λ e. get e.0 d ≡ some e.1) rest
        → contains k (keys rest) ≡ false
        → All (λ e. get e.0 ((k, r) ∷ d) ≡ some e.1) rest
    later d [] k r new a n = tt
    later d ((j, q) ∷ rest) k r new (here, a) n =
        let other : (k == j) ≡ false = ground (arith, eq_iff j k, eq_iff k j) in
        (rw other here, later d rest k r new a (ground arith))

looked_up :
    (d rest : Dict Root)
    → All (λ e. get e.0 d ≡ some e.1) rest
    → map (λ label. (label, root_at label d)) (keys rest) ≡ rest
looked_up d [] a = refl
looked_up d ((k, r) ∷ rest) (here, a) =
    let entry : root_at k d ≡ r = ap (λ o. elim o [ none ↦ missing | some q ↦ q ]) here in
    λ i. (k, entry i) ∷ looked_up d rest a i

-- The inputs that are scanned again are the inputs that were copied.
same_inputs :
    (inputs : Dict Root)
    → IsDict inputs
    → map
        (λ label. (label, root_at label (sort_items inputs)))
        (sorted_set (sorted_set (keys inputs)))
      ≡ sort_items inputs
same_inputs inputs i =
    ap (map (λ label. (label, root_at label (sort_items inputs)))) (
      sorted_set-IsAscending (sorted_set (keys inputs)) (IsAscending-sorted_set (keys inputs))
      ∙ sym (keys-sort_items inputs i))
    ∙ looked_up (sort_items inputs) (sort_items inputs)
        (holds_own (sort_items inputs) (sort_items-IsDict inputs i))

sorted_again :
    (inputs : Dict Root) → IsDict inputs → sort_items (sort_items inputs) ≡ sort_items inputs
sorted_again inputs i =
    sort_items-IsAscending (sort_items inputs)
      (subst IsAscending (sym (keys-sort_items inputs i)) (IsAscending-sorted_set (keys inputs)))

module _ (sha256 : String → String) (size : String → ℕ) (identity_sha256 : Identity → String)
    (manifest_text : CandidateManifest → String)
    (read_manifest : String → Option CandidateManifest) where
  abbrev freeze :
      Store
      → String
      → ℕ
      → Dict Root
      → Dict String
      → List String
      → Option String
      → String
      → Result StoreError Candidate × Store
  freeze = freeze_candidate sha256 size identity_sha256 manifest_text read_manifest

  -- what a call that freezes has done
  pub record Froze (inputs : Dict Root) (toolchain : Dict String) (c : Candidate) (s' : Store)
      : Type 0 where
    pub before : Store
    pub manifest : CandidateManifest
    pub made : c ≡ candidate_for sha256 size identity_sha256 manifest_text read_manifest manifest
    pub after :
        s'
        ≡ add_candidate sha256 size identity_sha256 manifest_text read_manifest before manifest
            inputs
    pub labels : manifest.input_labels ≡ sorted_set (keys inputs)
    pub tools : manifest.toolchain ≡ sort_items toolchain
    pub scanned : scan_inputs sha256 size inputs ≡ ok manifest.files

  frozen_in-Froze :
      (t : Store) (mission_id : String) (revision : ℕ) (inputs : Dict Root)
      (toolchain : Dict String) (required_evidence : List String) (parent : Option String)
      (role : String) (r : Result StoreError (Unit {0})) {c : Candidate} {s' : Store}
      → frozen_in sha256 size identity_sha256 manifest_text read_manifest t inputs (
          r >>= λ _.
          new_manifest sha256 size identity_sha256 manifest_text read_manifest t mission_id revision
            inputs toolchain required_evidence parent role)
        ≡ (ok c, s')
      → Froze inputs toolchain c s'
  unfolding new_manifest
  frozen_in-Froze t mission_id revision inputs toolchain required_evidence parent role (err e) h =
      absurd (ground arith)
  frozen_in-Froze t mission_id revision inputs toolchain required_evidence parent role (ok u) h =
      elim (Result-cases (scan_inputs sha256 size inputs)) [
        | inr (e, bad) ↦ absurd (ground (arith, rw bad at h))
        | inl (files, scanned) ↦
            let m =
              manifest_for mission_id revision inputs toolchain required_evidence parent role
                files in
            elim (Bool-cases (
              is_some (
                get
                  (candidate_for sha256 size identity_sha256 manifest_text read_manifest
                    m).candidate_id
                  t.candidates))) [
                    | inl old ↦ absurd (ground (arith, rw (scanned, old) at h))
                    | inr new ↦
                        let done = rw (scanned, new) at h in
                        record {
                          before = t;
                          manifest = m;
                          made = ground arith;
                          after = ground arith;
                          labels = refl;
                          tools = refl;
                          scanned = scanned;
                        }
                  ]
      ]

  pub freeze-Froze :
      (s : Store) (mission_id : String) (revision : ℕ) (inputs : Dict Root)
      (toolchain : Dict String) (required_evidence : List String) (parent : Option String)
      (role : String) {c : Candidate} {s' : Store}
      → freeze s mission_id revision inputs toolchain required_evidence parent role ≡ (ok c, s')
      → Froze inputs toolchain c s'
  unfolding freeze_candidate
  freeze-Froze s mission_id revision inputs toolchain required_evidence parent role h =
      frozen_in-Froze _ mission_id revision inputs toolchain required_evidence parent role _ h

  -- the functions that the store relies on
  pub record IsCodec (m : CandidateManifest) : Type 0 where
    -- digests are 64 hexadecimal digits, and the manifest is read from its own text
    pub digits : (content : String) → is_hex_text 64 (sha256 content) ≡ true
    pub ids : (i : Identity) → is_hex_text 64 (identity_sha256 i) ≡ true
    pub reads : read_manifest (manifest_text m) ≡ some m

  scan_again :
      (inputs : Dict Root) (m : CandidateManifest)
      → IsDict inputs
      → m.input_labels ≡ sorted_set (keys inputs)
      → scan_inputs sha256 size (
          labelled sha256 size identity_sha256 manifest_text read_manifest m
            (stored_for sha256 size identity_sha256 manifest_text read_manifest m inputs))
        ≡ scan_inputs sha256 size inputs
  unfolding scan_inputs
  scan_again inputs m i labels =
      ap
        (λ ls.
          scan_all sha256 size (
            sort_items (map (λ label. (label, root_at label (sort_items inputs))) (sorted_set ls))))
        labels
      ∙ (ap (λ d. scan_all sha256 size (sort_items d)) (same_inputs inputs i)
          ∙ ap (scan_all sha256 size) (sorted_again inputs i))

  -- The candidate that is made is verified in the store that it is made in.
  added-verify :
      (t : Store) (m : CandidateManifest) (inputs : Dict Root)
      → IsCodec m
      → IsDict inputs
      → IsDict m.toolchain
      → m.input_labels ≡ sorted_set (keys inputs)
      → scan_inputs sha256 size inputs ≡ ok m.files
      → let c = candidate_for sha256 size identity_sha256 manifest_text read_manifest m in
        verify_snapshot sha256 size identity_sha256 manifest_text read_manifest
          (add_candidate sha256 size identity_sha256 manifest_text read_manifest t m inputs)
          c
          (some c.manifest_sha256)
        ≡ (true, c)
  unfolding verify_snapshot check_snapshot
  added-verify t m inputs codec i j labels scanned =
      rw
        (
          get-put_self,
          codec.reads,
          codec.digits (manifest_text m),
          eq_refl,
          same_manifest_refl m j,
          eqb_refl,
          opt_eq_refl,
          scan_again inputs m i labels,
          scanned,
          same_files_refl,
        )
        (simp eq_refl)

  id_of_safe :
      (m : CandidateManifest)
      → IsCodec m
      → is_candidate_id (id_of sha256 size identity_sha256 manifest_text read_manifest m) ≡ true
  unfolding is_candidate_id
  id_of_safe m codec =
      ap is_digest (after_prefix-append "cand-" (identity_sha256 (identity_of m)))
      ∙ codec.ids (identity_of m)

  added-get_candidate :
      (t : Store) (m : CandidateManifest) (inputs : Dict Root)
      → IsCodec m
      → let c = candidate_for sha256 size identity_sha256 manifest_text read_manifest m in
        (get_candidate sha256 size identity_sha256 manifest_text read_manifest
          (record (add_candidate sha256 size identity_sha256 manifest_text read_manifest t m
            inputs) { cache = [] })
          c.candidate_id).0
        ≡ ok c
  unfolding get_candidate read_candidate read_state
  added-get_candidate t m inputs codec =
      rw (id_of_safe m codec, get-put_self, codec.reads, codec.digits (manifest_text m))
        (simp eq_refl)

  -- A candidate that is frozen from inputs and a toolchain with distinct names is verified, with the
  -- digest of its manifest as the one that is expected, and is left as it is; and a store that has
  -- only the files of this one, and no object in its cache, reads the same candidate. Digests are 64
  -- hexadecimal digits, and the manifest is read
  -- back from its own text.
  pub freeze-verify :
      (s : Store) (mission_id : String) (revision : ℕ) (inputs : Dict Root)
      (toolchain : Dict String) (required_evidence : List String) (parent : Option String)
      (role : String) {c : Candidate} {s' : Store}
      → IsCodec c.manifest
      → IsDict inputs
      → IsDict toolchain
      → freeze s mission_id revision inputs toolchain required_evidence parent role ≡ (ok c, s')
      → (verify_snapshot sha256 size identity_sha256 manifest_text read_manifest s' c
            (some c.manifest_sha256)
          ≡ (true, c))
        × ((get_candidate sha256 size identity_sha256 manifest_text read_manifest
              (record s' { cache = [] })
              c.candidate_id).0
            ≡ ok c)
  freeze-verify s mission_id revision inputs toolchain required_evidence parent role {c} {s'} codec
        i j h =
      let f = freeze-Froze s mission_id revision inputs toolchain required_evidence parent role h in
      let m = f.manifest in
      let codec' = subst (λ (x : Candidate). IsCodec x.manifest) f.made codec in
      let tools = subst IsDict (sym f.tools) (sort_items-IsDict toolchain j) in
      subst
        (λ x.
          (verify_snapshot sha256 size identity_sha256 manifest_text read_manifest x c
              (some c.manifest_sha256)
            ≡ (true, c))
          × ((get_candidate sha256 size identity_sha256 manifest_text read_manifest
                (record x { cache = [] }) c.candidate_id).0
              ≡ ok c))
        (sym f.after)
        (subst
          (λ x.
            (verify_snapshot sha256 size identity_sha256 manifest_text read_manifest
                (add_candidate sha256 size identity_sha256 manifest_text read_manifest f.before m
                  inputs)
                x (some x.manifest_sha256)
              ≡ (true, x))
            × ((get_candidate sha256 size identity_sha256 manifest_text read_manifest
                  (record (add_candidate sha256 size identity_sha256 manifest_text read_manifest
                    f.before m inputs) { cache = [] })
                  x.candidate_id).0
                ≡ ok x))
          (sym f.made)
          (
            added-verify f.before m inputs codec' i tools f.labels f.scanned,
            added-get_candidate f.before m inputs codec',
          ))
