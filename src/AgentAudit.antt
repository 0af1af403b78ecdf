-- ===== src/AgentAudit.antt =====
-- services/agent_audit.py: the runs of agents, with the hashes of what they were given and what they gave.
pub mod Loaded
use aicti.Base.{
  ℕ, String, ◌==◌, Bool, true, false, Option, none, some, List, [], ◌∷◌, ◌++◌, first, if◌then◌else◌,
}
use aicti.Value.{Value}
use aicti.Library.{Library}
use aicti.Hashing.{snapshot_hash, verify_snapshot_hash}
use aicti.Db.{Db, AgentRun}
use aicti.Db.Action.{Action, ◌>>=◌, ◌>>◌, pure, raise, gets, modify, require, draw}

-- The `ValueError` and the `IntegrityError` of `load_agent_run_verified`.
pub data AuditError : Type 0 where
  agent_run_not_found : String → AuditError
  input_hash_mismatch : AuditError

-- What is given to `persist_agent_run`.
pub record AgentRunInput : Type 0 where
  pub run_id : String
  pub trace_id : String
  pub agent_name : String
  pub input_snapshot : Value
  pub output_snapshot : Option Value
  pub status : String
  pub retry_attempt : ℕ

-- The envelope of `persist`: its dump, and the fields of it that are read.
pub record AgentOutputEnvelope : Type 0 where
  pub dumped : Value
  pub run_id : String
  pub agent_name : String
  pub is_abstain : Bool

module _ (library : Library) where
  unfoldable pub output_hash_of : Option Value → Option String
  output_hash_of none = none
  output_hash_of (some snapshot) = some (snapshot_hash library snapshot)

  unfoldable pub agent_run : String → AgentRunInput → AgentRun
  agent_run id given = record {
    id = id;
    run_id = given.run_id;
    trace_id = given.trace_id;
    agent_name = given.agent_name;
    input_hash = snapshot_hash library given.input_snapshot;
    output_hash = output_hash_of given.output_snapshot;
    status = given.status;
    retry_attempt = given.retry_attempt;
  }

  unfoldable pub add_agent_run : AgentRun → Db → Db
  add_agent_run row db = record db { agent_runs = db.agent_runs ++ row ∷ [] }

  -- An insertion does not fail.
  unfoldable pub persist_agent_run : (ℕ → String) → AgentRunInput → Action AuditError String
  persist_agent_run uuid4 given = do
    id ← draw uuid4
    modify (add_agent_run (agent_run id given))
    pure id

  -- `persist`, whose record is the run of the envelope.
  unfoldable pub persist : (ℕ → String) → Value → AgentOutputEnvelope → Action AuditError AgentRun
  persist uuid4 input_payload envelope = do
    id ← draw uuid4
    let row = agent_run id (record {
      run_id = envelope.run_id;
      trace_id = envelope.run_id;
      agent_name = envelope.agent_name;
      input_snapshot = input_payload;
      output_snapshot = some envelope.dumped;
      status = if envelope.is_abstain then "abstain" else "success";
      retry_attempt = 0;
    })
    modify (add_agent_run row)
    pure row

  -- From the row that was found on.
  unfoldable pub verified : String → Value → Option AgentRun → Action AuditError AgentRun
  verified run_id input_snapshot none = raise (agent_run_not_found run_id)
  verified run_id input_snapshot (some row) = do
    require (verify_snapshot_hash library input_snapshot row.input_hash) input_hash_mismatch
    pure row

  unfoldable pub load_agent_run_verified : String → Value → Action AuditError AgentRun
  load_agent_run_verified run_id input_snapshot = do
    row ← gets (λ db. first (λ (r : AgentRun). r.id == run_id) db.agent_runs)
    verified run_id input_snapshot row
