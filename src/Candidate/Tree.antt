-- ===== src/Candidate/Tree.antt =====
-- src/agent_harness/candidate.py: what the store reads of a directory, `_scan_inputs`.
-- The content of a file is a text; `sha256` and `size` say what `_sha256` and `stat` answer.
use sdlc_harness.Prelude.{
  ℕ, String, Bool, true, false, ◌&&◌, List, [], ◌∷◌, ◌++◌, ◌==◌, eqb, Result, ok, err, ◌>>=◌,
}
use sdlc_harness.Dict.{Dict}
use sdlc_harness.Sets.{sort_items}
use sdlc_harness.Candidate.{FileRecord}

pub data StoreError : Type 0 where
  value_error os_error key_error file_exists : StoreError

-- what `rglob` finds at a path, and what is at the path of an input
pub data Node : Type 0 where
  regular : String → Node
  folder link : Node

-- the paths below a directory, in the order of `sorted`, each as `as_posix` of the relative path
abbrev pub Tree : Type 0
Tree = List (String × Node)

pub data Root : Type 0 where
  -- no such path, a path with a symbolic link, something that is not a directory
  missing linked other : Root
  directory : Tree → Root

abbrev pub same_file : FileRecord → FileRecord → Bool
same_file a b =
    (a.input == b.input) && ((a.path == b.path) && ((a.sha256 == b.sha256) && eqb a.size b.size))

abbrev pub same_files : List FileRecord → List FileRecord → Bool
same_files [] [] = true
same_files (a ∷ xs) (b ∷ ys) = same_file a b && same_files xs ys
same_files _ _ = false

module _ (sha256 : String → String) (size : String → ℕ) where
  abbrev pub file_record : String → String → String → FileRecord
  file_record label path content = record {
    input = label;
    path = path;
    sha256 = sha256 content;
    size = size content;
  }

  unfoldable pub scan_tree : String → Tree → Result StoreError (List FileRecord)
  scan_tree label [] = ok []
  scan_tree label ((path, link) ∷ tree) = err value_error
  scan_tree label ((path, folder) ∷ tree) = scan_tree label tree
  scan_tree label ((path, regular content) ∷ tree) =
      scan_tree label tree >>= λ records. ok (file_record label path content ∷ records)

  unfoldable pub scan_root : String → Root → Result StoreError (List FileRecord)
  unfolding scan_tree
  scan_root label linked = err value_error
  scan_root label missing = err os_error
  scan_root label other = err value_error
  scan_root label (directory tree) = scan_tree label tree

  unfoldable pub scan_all : Dict Root → Result StoreError (List FileRecord)
  unfolding scan_root
  scan_all [] = ok []
  scan_all ((label, root) ∷ rest) = do
    records ← scan_root label root
    others ← scan_all rest
    ok (records ++ others)

  unfoldable pub scan_inputs : Dict Root → Result StoreError (List FileRecord)
  unfolding scan_all
  scan_inputs inputs = scan_all (sort_items inputs)
