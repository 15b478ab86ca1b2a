-- ===== src/Audit.antt =====
-- src/atlas/governance/audit.py: audit events, the hash chain and the in-memory log. The canonical
-- serialization (pydantic and json), SHA-256, the event ids and the clock are the environment's.
pub mod Chain
pub mod Tamper
pub mod Recorders
pub mod Growth
use Prim.Native.Char.{code}
use atlas_alpha.Prelude.{
  ℕ, zero, suc, ◌+◌, Bool, true, false, ◌&&◌, String, Option, none, some, List, [], ◌∷◌, ◌++◌, map,
  ◌==◌, nat_beq, if◌then◌else◌, any, length, get_last?,
}
use atlas_alpha.Prelude.Result.{Result, ok, raise}
use atlas_alpha.Value
use atlas_alpha.Value.{Value, Fields, field, end}
use atlas_alpha.Actions.{ProposedAction, ApprovalDecision, ActionResult}

-- `"0" * 64`
abbrev pub genesis_hash : String
genesis_hash = "0000000000000000000000000000000000000000000000000000000000000000"

pub data AuditEventType : Type 0 where
  proposed approved rejected executed replay_skipped failed skipped denied ingested : AuditEventType

pub record AuditToolContext : Type 0 where
  pub tool_schema : Option String
  pub schema_version : Option String
  pub destination_host : Option String
  pub provider : Option String
  pub principal : Option String

pub record AuditEvent : Type 0 where
  pub event_id : String
  pub timestamp : String
  pub event_type : AuditEventType
  pub action_id : String
  pub tool : Option String
  pub actor : String
  pub detail : Fields

pub record ChainedAuditRecord : Type 0 where
  pub seq : ℕ
  pub event : AuditEvent
  pub prev_hash : String
  pub event_hash : String

-- `ChainVerification.reason`
pub data Reason : Type 0 where
  non_contiguous : ℕ → Reason
  prev_mismatch hash_mismatch : Reason

pub record ChainVerification : Type 0 where
  pub ok : Bool
  pub broken_at : Option ℕ
  pub reason : Option Reason

abbrev pub Log : Type 0
Log = List ChainedAuditRecord

-- What the log takes from outside: the bytes of an event, the hex digest of SHA-256, and the id and
-- the time of the event that is recorded at a position.
pub record Env : Type 0 where
  pub canonical_event_bytes : AuditEvent → List ℕ
  pub sha256 : List ℕ → String
  pub stamp : ℕ → String × String

-- The code points of a text: its bytes, where it is ASCII, as digests are.
abbrev pub codes : String → List ℕ
codes String.[] = []
codes (String.◌∷◌ c s) = code c ∷ codes s

module _ (env : Env) where
  unfoldable pub compute_event_hash : String → AuditEvent → String
  compute_event_hash prev_hash event =
      env.sha256 (codes prev_hash ++ env.canonical_event_bytes event)

  -- The loop of `verify_chain`, over the expected link, the index and the records left.
  verify_from : String → ℕ → Log → ChainVerification
  verify_from expected_prev index [] = record { ok = true; broken_at = none; reason = none }
  verify_from expected_prev index (r ∷ records) =
      let rest = verify_from r.event_hash (suc index) records in
      if nat_beq r.seq index
      then (if r.prev_hash == expected_prev
          then (if compute_event_hash r.prev_hash r.event == r.event_hash
              then rest
              else record { ok = false; broken_at = some r.seq; reason = some hash_mismatch })
          else record { ok = false; broken_at = some r.seq; reason = some prev_mismatch })
      else record { ok = false; broken_at = some r.seq; reason = some (non_contiguous index) }

  unfoldable pub verify_chain : Log → ChainVerification
  unfolding verify_from
  verify_chain records = verify_from genesis_hash 0 records

  -- `AuditLog.link`
  unfoldable pub link : Option ChainedAuditRecord → AuditEvent → ChainedAuditRecord
  link none event = record {
    seq = 0;
    event = event;
    prev_hash = genesis_hash;
    event_hash = compute_event_hash genesis_hash event;
  }
  link (some tail) event = record {
    seq = suc tail.seq;
    event = event;
    prev_hash = tail.event_hash;
    event_hash = compute_event_hash tail.event_hash event;
  }

  -- `InMemoryAuditLog._append_event`
  unfoldable pub append_event : AuditEvent → Log → Log
  append_event event log = log ++ link (get_last? log) event ∷ []

  -- `AuditLog.record` of an event built with its default id and time
  unfoldable pub record_event :
      AuditEventType → String → Option String → String → Fields → Log → Log
  unfolding append_event
  record_event event_type action_id tool actor detail log =
      let (event_id, timestamp) = env.stamp (length log) in
      append_event
        (record {
          event_id = event_id;
          timestamp = timestamp;
          event_type = event_type;
          action_id = action_id;
          tool = tool;
          actor = actor;
          detail = detail;
        })
        log
