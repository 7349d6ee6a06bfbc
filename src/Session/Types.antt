-- ===== src/Session/Types.antt =====
-- The data of src/project_mimic/session_lifecycle.py.
use project_mimic.Prelude.{ℕ, String, Bool, true, false, Option}
use project_mimic.Dict.{Dict}
use project_mimic.Environment.{Env, EnvPayload}

pub data SessionStatus : Type 0 where
  created running paused completed failed expired : SessionStatus

unfoldable pub status_dec : Discrete SessionStatus
status_dec = hlevel

-- `ALLOWED_TRANSITIONS`
unfoldable pub allowed : SessionStatus → SessionStatus → Bool
allowed created running = true
allowed created expired = true
allowed created failed = true
allowed running paused = true
allowed running completed = true
allowed running failed = true
allowed running expired = true
allowed paused running = true
allowed paused expired = true
allowed paused failed = true
allowed _ _ = false

pub record SessionRecord : Type 0 where
  pub env : Env
  pub status : SessionStatus
  pub created_at : ℕ
  pub last_accessed_at : ℕ
  pub expires_at : ℕ
  pub tenant_id : String

-- the payload of a checkpoint: the state, if it has one, and the record's other fields
pub record Checkpoint : Type 0 where
  pub state : Option EnvPayload
  pub status : SessionStatus
  pub created_at : ℕ
  pub last_accessed_at : ℕ
  pub expires_at : ℕ
  pub tenant_id : String

pub record Metadata : Type 0 where
  pub goal : String
  pub status : SessionStatus
  pub created_at : ℕ
  pub last_accessed_at : ℕ
  pub expires_at : ℕ
  pub tenant_id : String

-- the registry over the in-memory stores
pub record SessionRegistry : Type 0 where
  pub ttl : ℕ
  pub records : Dict String SessionRecord
  pub checkpoints : Dict String Checkpoint
  pub metadata : Dict String Metadata
