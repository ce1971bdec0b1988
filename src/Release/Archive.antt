-- ===== src/Release/Archive.antt =====
-- src/agent_harness/release.py: the files of an archive.
use sdlc_harness.Prelude.{
  ℕ, String, ◌≡◌, ◌⊎◌, refl, sym, ap, ◌∙◌, subst, Option, none, some, List, [], ◌∷◌, ◌++◌, ◌==◌,
  eq_iff, map, ok, ok-bind, arith, Bool-cases, Option-cases, inl, inr, All, All-append,
}
use sdlc_harness.Dict.{Dict, get}
use sdlc_harness.Sets.{sort_items, get-sort_items}
use sdlc_harness.Candidate.{FileRecord}
use sdlc_harness.Candidate.Tree.{
  regular, folder, link, Tree, Root, missing, linked, other, directory, scan_tree, scan_root,
  scan_all,
}
use sdlc_harness.Candidate.Store.{root_at}
use sdlc_harness.Release.{Entry, entry_name, archive_tree, archive_root, archive_all}

-- an element of a list
abbrev pub Has : {A : Type 0} → A → List A → Type 0
Has x [] = ⊥
Has x (y ∷ ys) = (x ≡ y) ⊎ Has x ys

pub Has-left : {A : Type 0} (x : A) (xs ys : List A) → Has x xs → Has x (xs ++ ys)
Has-left x [] ys h = absurd h
Has-left x (y ∷ xs) ys (inl e) = inl e
Has-left x (y ∷ xs) ys (inr h) = inr (Has-left x xs ys h)

pub Has-right : {A : Type 0} (x : A) (xs ys : List A) → Has x ys → Has x (xs ++ ys)
Has-right x [] ys h = h
Has-right x (y ∷ xs) ys h = inr (Has-right x xs ys h)

abbrev or_missing : Option Root → Root
or_missing o = elim o [ none ↦ missing | some r ↦ r ]

module _ (sha256 : String → String) (size : String → ℕ) where
  -- the file of a record is in the archive, with the content that was recorded
  pub record IsPacked (archive : List Entry) (r : FileRecord) : Type 0 where
    pub content : String
    pub entry : Has (entry_name r.input r.path, content) archive
    pub same_hash : sha256 content ≡ r.sha256
    pub same_size : size content ≡ r.size

  module _ (a b : List Entry) (grow : (e : Entry) → Has e a → Has e b) where
    pub still-IsPacked : (rs : List FileRecord) → All (IsPacked a) rs → All (IsPacked b) rs
    still-IsPacked [] h = tt
    still-IsPacked (r ∷ rs) (p, ps) = (
      record {
        content = p.content;
        entry = grow _ p.entry;
        same_hash = p.same_hash;
        same_size = p.same_size;
      },
      still-IsPacked rs ps,
    )

  module _ (follow : String → Option String) where
    tree-IsPacked :
        (label : String) (tree : Tree) {rs : List FileRecord}
        → scan_tree sha256 size label tree ≡ ok rs
        → All (IsPacked (archive_tree follow label tree)) rs
    unfolding scan_tree archive_tree
    tree-IsPacked label [] {rs} h =
        let made : [] ≡ rs = ground arith in subst (All (IsPacked [])) made tt
    tree-IsPacked label ((path, link) ∷ tree) h = absurd (ground arith)
    tree-IsPacked label ((path, folder) ∷ tree) h = tree-IsPacked label tree h
    tree-IsPacked label ((path, regular content) ∷ tree) {rs} h =
        let (records, scanned, a) = ok-bind (scan_tree sha256 size label tree) _ h in
        let made : record {
          input = label;
          path = path;
          sha256 = sha256 content;
          size = size content;
        }
              ∷ records
            ≡ rs =
          ground arith in
        subst (All (IsPacked (archive_tree follow label ((path, regular content) ∷ tree)))) made (
          record { content = content; entry = inl refl; same_hash = refl; same_size = refl },
          still-IsPacked (archive_tree follow label tree) _ (λ e i. inr i) records
              (tree-IsPacked label tree scanned),
        )

    root-IsPacked :
        (label : String) (root : Root) {rs : List FileRecord}
        → scan_root sha256 size label root ≡ ok rs
        → All (IsPacked (archive_root follow label root)) rs
    unfolding scan_root archive_root
    root-IsPacked label missing h = absurd (ground arith)
    root-IsPacked label linked h = absurd (ground arith)
    root-IsPacked label other h = absurd (ground arith)
    root-IsPacked label (directory tree) h = tree-IsPacked label tree h

    -- The entries of one label are entries of the archive.
    pub archived :
        (label : String) (root : Root) (files : Dict Root)
        → get label files ≡ some root
        → (e : Entry) → Has e (archive_root follow label root)
        → Has e (archive_all follow files)
    unfolding archive_all
    archived label root [] h e i = absurd (ground arith)
    archived label root ((k, r) ∷ files) h e i = elim (Bool-cases (k == label)) [
      | inl same ↦
          let here : r ≡ root = ground arith in
          let name = (eq_iff k label).0 same in
          let there = subst (λ x. Has e (archive_root follow label x)) (sym here) i in
          Has-left e (archive_root follow k r) _
            (subst (λ x. Has e (archive_root follow x r)) (sym name) there)
      | inr n ↦
          Has-right e (archive_root follow k r) _ (archived label root files (ground arith) e i)
    ]

    scanned_root :
        (label : String) (files : Dict Root) {root : Root} {rs : List FileRecord}
        → root_at label files ≡ root
        → scan_root sha256 size label root ≡ ok rs
        → get label files ≡ some root
    unfolding scan_root
    scanned_root label files {root} {rs} at h = elim (Option-cases (get label files)) [
      | inl n ↦
          let gone : missing ≡ root = sym (ap or_missing n) ∙ at in
          absurd (ground (arith, subst (λ x. scan_root sha256 size label x ≡ ok rs) (sym gone) h))
      | inr (r, e) ↦ let same : r ≡ root = sym (ap or_missing e) ∙ at in e ∙ ap some same
    ]

    -- Each file that a scan of some of the labels records is in the archive of all of them.
    pub scan-IsPacked :
        (files d : Dict Root) {rs : List FileRecord}
        → All (λ e. root_at e.0 files ≡ e.1) d
        → scan_all sha256 size d ≡ ok rs
        → All (IsPacked (archive_all follow files)) rs
    unfolding scan_all
    scan-IsPacked files [] {rs} a h =
        let made : [] ≡ rs = ground arith in subst (All (IsPacked _)) made tt
    scan-IsPacked files ((label, root) ∷ d) {rs} (here, a) h =
        let (records, scanned, b) = ok-bind (scan_root sha256 size label root) _ h in
        let (others, rest, c) = ok-bind (scan_all sha256 size d) _ b in
        let made : records ++ others ≡ rs = ground arith in
        subst (All (IsPacked (archive_all follow files))) made (
          All-append (IsPacked (archive_all follow files)) records others
            (still-IsPacked (archive_root follow label root) (archive_all follow files)
              (archived label root files (scanned_root label files here scanned)) records
              (root-IsPacked label root scanned))
            (scan-IsPacked files d a rest))

    pub own_roots :
        (labels : List String) (files : Dict Root)
        → All
            (λ (e : String × Root). root_at e.0 (sort_items files) ≡ e.1)
            (map (λ label. (label, root_at label files)) labels)
    own_roots [] files = tt
    own_roots (l ∷ labels) files = (ap or_missing (get-sort_items l files), own_roots labels files)
