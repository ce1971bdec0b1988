-- ===== src/Handoff.antt =====
-- src/agent_harness/handoff.py: `HandoffValidator.validate_and_verify`.
-- A document is a record of the fields that the validator reads, in the shapes of
-- schemas/handoff.schema.json; a document of another shape has none and is refused. What
-- `jsonschema` finds is the parameter `schema_valid`; the file system and `pathlib`'s reading of
-- a text are the fields of `Disk`. A path is the list of its components, the last one first.
pub mod Links
pub mod Tests
use Prim.Native.Char.{Char, code}
use Prim.Native.String.{char_at}
use sdlc_harness.Prelude.{
  ℕ, ◌-◌, String, Bool, true, false, not, ◌&&◌, Option, none, some, List, [], ◌∷◌, ◌++◌, ◌==◌, leb,
  eqb, map, reverse, any, all, contains, subset, length, if◌then◌else◌, Result, ok, err, ◌>>=◌,
  ◌>>◌, require,
}

-- `str.lower`, on ASCII: the program lowers digests
abbrev lower_char : Char → Char
lower_char c =
    if leb 65 (code c) && leb (code c) 90
    then char_at "abcdefghijklmnopqrstuvwxyz" (code c - 65)
    else c

unfoldable pub lower : String → String
lower String.[] = String.[]
lower (String.◌∷◌ c s) = String.◌∷◌ (lower_char c) (lower s)

abbrev pub FilePath : Type 0
FilePath = List String

abbrev pub same_path : FilePath → FilePath → Bool
same_path [] [] = true
same_path (x ∷ xs) (y ∷ ys) = (x == y) && same_path xs ys
same_path _ _ = false

-- `path.relative_to(root)` succeeds
unfoldable pub is_below : FilePath → FilePath → Bool
is_below [] root = same_path [] root
is_below (x ∷ path) root = if same_path (x ∷ path) root then true else is_below path root

pub record RawPath : Type 0 where
  pub is_absolute : Bool
  pub parts : List String

pub record Disk : Type 0 where
  pub parse : String → RawPath
  pub is_symlink : FilePath → Bool
  -- `resolve(strict=True)`; `none` is the OSError
  pub resolve : FilePath → Option FilePath
  pub is_file : FilePath → Bool
  pub sha256 : FilePath → String

pub record ArtifactEntry : Type 0 where
  pub artifact_type : String
  pub path : String
  pub sha256 : String

pub record ExpectedResult : Type 0 where
  pub expected_result_id : String
  pub owner_role : String
  pub decision_rule_ids : List String

pub record DecisionRule : Type 0 where
  pub decision_rule_id : String
  pub owner_role : String

pub record Observation : Type 0 where
  pub observation_id : String
  pub expected_result_id : String
  pub artifact_sha256 : String
  pub outcome : String

pub record Claim : Type 0 where
  pub claim_id : String
  pub artifact_sha256s : List String
  pub observation_ids : List String

-- the fields that come from a result's payload
pub record HandoffBody : Type 0 where
  pub claims : List Claim
  pub expected_results : List ExpectedResult
  pub decision_rules : List DecisionRule
  pub observations : List Observation
  pub decision_outcome : String
  pub applied_rule_ids : List String
  pub unresolved : List String
  pub artifacts : List ArtifactEntry

pub record Handoff : Type 0 where
  pub sender_role : String
  pub body : HandoffBody
  pub open body use *

pub data HandoffError : Type 0 where
  -- SchemaViolation, ArtifactMismatch, OSError
  schema_violation artifact_mismatch os_error : HandoffError

-- the texts of a list are distinct, as the keys of `_indexed` and the artifact types must be
abbrev pub distinct : List String → Bool
distinct [] = true
distinct (x ∷ xs) = not (contains x xs) && distinct xs

module _ (disk : Disk) where
  open disk use {parse, is_symlink, resolve, is_file, sha256 as file_sha256}

  -- `_assert_no_symlink_path`: the path and its parents
  unfoldable pub no_symlink : FilePath → Bool
  no_symlink [] = not (is_symlink [])
  no_symlink (x ∷ path) = not (is_symlink (x ∷ path)) && no_symlink path

  -- the `while` loop, up to the parent of the root
  unfoldable pub no_symlink_until : FilePath → FilePath → Bool
  no_symlink_until stop [] = if same_path [] stop then true else not (is_symlink [])
  no_symlink_until stop (x ∷ path) =
      if same_path (x ∷ path) stop
      then true
      else not (is_symlink (x ∷ path)) && no_symlink_until stop path

  abbrev pub parent : FilePath → FilePath
  parent [] = []
  parent (x ∷ path) = path

  abbrev pub or_os_error {ℓ} : {A : Type ℓ} → Option A → Result HandoffError A
  or_os_error none = err os_error
  or_os_error (some a) = ok a

  -- one round of the loop over the artifacts: the digest that was verified
  unfoldable pub verify_artifact : FilePath → ArtifactEntry → Result HandoffError String
  verify_artifact root entry = do
    let raw = parse entry.path
    require (not raw.is_absolute && not (contains ".." raw.parts)) artifact_mismatch
    let unresolved = reverse raw.parts ++ root
    require (no_symlink_until (parent root) unresolved) artifact_mismatch
    artifact ← or_os_error (resolve unresolved)
    require (is_below artifact root) artifact_mismatch
    require (is_file artifact) artifact_mismatch
    require (lower (file_sha256 artifact) == lower entry.sha256) artifact_mismatch
    ok (lower (file_sha256 artifact))

  unfoldable pub verify_artifacts :
      FilePath → List ArtifactEntry → Result HandoffError (List String)
  verify_artifacts root [] = ok []
  verify_artifacts root (entry ∷ entries) = do
    digest ← verify_artifact root entry
    digests ← verify_artifacts root entries
    ok (digest ∷ digests)

-- `_indexed`: no identifier stands twice
abbrev pub rule_ids : Handoff → List String
rule_ids d = map (λ (r : DecisionRule). r.decision_rule_id) d.decision_rules

abbrev pub expected_ids : Handoff → List String
expected_ids d = map (λ (e : ExpectedResult). e.expected_result_id) d.expected_results

abbrev pub observation_ids_of : Handoff → List String
observation_ids_of d = map (λ (o : Observation). o.observation_id) d.observations

abbrev pub observed_ids : Handoff → List String
observed_ids d = map (λ (o : Observation). o.expected_result_id) d.observations

abbrev pub lowered : List String → List String
lowered xs = map lower xs

-- the tests of `_verify_evidence_links`, in its order
unfoldable pub verify_links : Handoff → List String → Result HandoffError (Unit {0})
verify_links d verified = do
  require (distinct (expected_ids d)) schema_violation
  require (distinct (rule_ids d)) schema_violation
  require (distinct (observation_ids_of d)) schema_violation
  require (distinct (map (λ (c : Claim). c.claim_id) d.claims)) schema_violation
  require
      (all
        (λ (e : ExpectedResult).
          not (e.owner_role == d.sender_role) && subset e.decision_rule_ids (rule_ids d))
        d.expected_results)
      schema_violation
  require (all (λ (r : DecisionRule). not (r.owner_role == d.sender_role)) d.decision_rules)
      schema_violation
  require
      (all
        (λ (o : Observation).
          contains o.expected_result_id (expected_ids d)
          && contains (lower o.artifact_sha256) verified)
        d.observations)
      schema_violation
  require (subset (expected_ids d) (observed_ids d)) schema_violation
  require
      (all
        (λ (c : Claim).
          subset (lowered c.artifact_sha256s) verified
          && subset c.observation_ids (observation_ids_of d))
        d.claims)
      schema_violation
  require (subset d.applied_rule_ids (rule_ids d)) schema_violation
  require
      (if d.decision_outcome == "pass"
        then eqb (length d.unresolved) 0
          && all (λ (o : Observation). o.outcome == "pass") d.observations
        else true)
      schema_violation

module _ (schema_valid : Handoff → Bool) (disk : Disk) where
  unfoldable pub validate_and_verify : Option Handoff → FilePath → Result HandoffError (Unit {0})
  validate_and_verify none artifact_root = err schema_violation
  validate_and_verify (some d) artifact_root = do
    require (schema_valid d) schema_violation
    require (no_symlink disk artifact_root) artifact_mismatch
    root ← or_os_error disk (disk.resolve artifact_root)
    verified ← verify_artifacts disk root d.artifacts
    require (distinct (map (λ (a : ArtifactEntry). a.artifact_type) d.artifacts)) schema_violation
    verify_links d verified
