-- ===== src/Lib.antt =====
-- A verification library for the agent harness, the Python package src/agent_harness.
--
-- The harness runs a mission for a user's goal. `MethodologyPlanner` turns the goal into a plan of
-- stages; `MissionManager` issues a task for each role of the current stage, takes the results
-- that come back, and goes on when every role has passed and the stage's decision is made. A
-- result carries a handoff, which `HandoffValidator` checks against the files it names. A snapshot
-- of the work is a `Candidate` with a state machine, which `GatePolicy` approves on the evidence of
-- an `EvidenceLedger`; a single-use token of `AuthorityStore` is needed for each decision;
-- `WorkflowEventStore` keeps the history, from which `WorkflowProjection` rebuilds the state;
-- `WorkflowPolicyEngine` reports each operation to it, and `ReleasePackager` archives a candidate.
--
-- The parts:
--   Workflow      src/agent_harness/workflow_state.py: `append`, `events`, `verify_chain`.
--                 Workflow/Projection: `rebuild` and `_apply`.
--   Candidate     src/agent_harness/state_machine.py: the states of a candidate; Candidate/Tree, Store
--                 and Freeze: `_scan_inputs`, the operations of `CandidateStore` and
--                 `freeze_candidate` of src/agent_harness/candidate.py.
--   Release       src/agent_harness/release.py: `ReleaseDecision` and `package`.
--   Authority     src/agent_harness/authority.py: `issue`, `revoke_issued`, `consume`.
--   Methodology   src/agent_harness/methodology.py: the types; Methodology/Profiles, Perspectives
--                 and Planner: `_expert_profile`, `_perspectives` and `plan`.
--   Evidence      src/agent_harness/evidence.py: `append`, `invalidate`, `status`, `verify_chain`.
--   Gate          src/agent_harness/policy.py: `approve`, with the role catalog of
--                 src/agent_harness/workspace.py.
--   Handoff       src/agent_harness/handoff.py: `validate_and_verify`.
--   Policy        src/agent_harness/workflow_policy.py: the engine that performs an operation of the
--                 manager and stores the event that reports it.
--   Mission       src/agent_harness/mission.py: the types; Mission/Manager and Mission/Stages: the
--                 operations, `advance_if_ready` among them. Mission/Snapshot and Mission/Restore:
--                 `snapshot` and `restore`.
--   Plugin        src/agent_harness/plugin_service.py: the steps that a checkpoint, an interruption
--                 and a retry begin with, and the checks of a response.
-- Prelude, Dict, Sets and Text are shared: results of calls that may raise, Python's `dict` as an
-- association list in insertion order, `sorted` of a set of texts and of a dict's items, and the
-- regular expressions.
--
-- How the code corresponds. A method that changes state takes the state and returns the next one;
-- a call that may raise returns a `Result`. A table of SQLite is the list of its rows, with the
-- UNIQUE constraints tested at an insertion and an error rolling the table back. Numbers of
-- Python are unbounded, as ℕ is; those that occur are never negative. Every loop runs over a list,
-- so no fuel is needed.
--
-- Parameters: SHA-256 and canonical JSON (`digest`, `sha256`, `canonical_json`, `Hashes`), the JSON
-- schema validator (`schema_valid`), the file system (`Disk`), and the ids and times that the
-- program draws. `str.lower` is modelled on ASCII; it is applied to digests.
--
-- Not modelled: the workspace broker, expert handoffs, result evidence, the other operations of the
-- plugin service, the agent runner and the command line.
pub mod Prelude
pub mod Dict
pub mod Sets
pub mod Text
pub mod Authority
pub mod Candidate
pub mod Evidence
pub mod Gate
pub mod Handoff
pub mod Methodology
pub mod Mission
pub mod Plugin
pub mod Policy
pub mod Release
pub mod Workflow
