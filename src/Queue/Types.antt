-- ===== src/Queue/Types.antt =====
-- The data of src/project_mimic/queue_runtime.py.
use project_mimic.Prelude.{ℕ, String, Option, List, []}
use project_mimic.Dict.{Dict}
use project_mimic.Json.{JsonFields}

pub data JobStatus : Type 0 where
  queued leased completed canceled dead_letter : JobStatus

unfoldable pub status_dec : Discrete JobStatus
status_dec = hlevel

pub record ActionJob : Type 0 where
  pub job_id : String
  pub idempotency_key : String
  pub action_payload : JsonFields
  pub status : JobStatus
  pub attempts : ℕ
  pub max_attempts : ℕ
  pub created_at : ℕ
  pub updated_at : ℕ
  pub lease_worker_id : Option String
  pub lease_expires_at : Option ℕ
  pub last_error : Option String

pub record WorkerLease : Type 0 where
  pub worker_id : String
  pub job_id : String
  pub lease_expires_at : ℕ
  pub heartbeat_at : ℕ

-- the tables of a queue, which are also what its store keeps
pub record Tables : Type 0 where
  pub jobs : Dict String ActionJob
  pub idempotency : Dict String String
  pub idempotency_expires : Dict String ℕ
  pub ready : List String
  pub dead_letters : List String
  pub leases : Dict String WorkerLease

pub record Queue : Type 0 where
  pub idempotency_ttl : ℕ
  pub tables : Tables
  pub open tables use *
  pub saved : Option Tables

abbrev pub empty_tables : Tables
empty_tables = record {
  jobs = [];
  idempotency = [];
  idempotency_expires = [];
  ready = [];
  dead_letters = [];
  leases = [];
}
