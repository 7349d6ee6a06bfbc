-- ===== src/Session/Handlers.antt =====
-- The session handlers of src/project_mimic/api.py: which exception becomes which HTTP status.
use project_mimic.Prelude.{
  if◌then◌else◌, text_dec, Exception, value_error, key_error, session_expired, access_denied, ok,
  err, Action, ℕ, String, Bool, true, false, none, some,
}
use project_mimic.Dict.{lookup}
use project_mimic.Environment
use project_mimic.Environment.{Env, UiAction, StepResult}
use project_mimic.Session.Types.{SessionRegistry}
use project_mimic.Session.{get, get_record, set_record}
use project_mimic.Session.Operations.{mark_completed, mark_failed, save_checkpoint}

-- a reply, an HTTPException with its status, or an exception that leaves the handler, for the
-- application's own exception handlers
pub data Response (A : Type 0) : Type 0 where
  reply : A → Response A
  http_error : ℕ → Response A
  escapes : Exception → Response A

-- the HTTP status of an answer: the handlers that `create_app` registers for ValueError,
-- HTTPException and Exception
unfoldable pub status_of : {A : Type 0} → Response A → ℕ
status_of (reply a) = 200
status_of (http_error n) = n
status_of (escapes (value_error m)) = 422
status_of (escapes e) = 500

-- the `except` clauses after `registry.get` and `registry.get_record`
unfoldable pub access_error : {A : Type 0} → Exception → Response A
access_error session_expired = http_error 410
access_error access_denied = http_error 403
access_error (key_error k) = http_error 404
access_error e = escapes e

-- subclasses of RuntimeError
unfoldable pub is_runtime_error : Exception → Bool
is_runtime_error (value_error m) = false
is_runtime_error (key_error k) = false
is_runtime_error _ = true

-- `_require_session`
unfoldable pub require_session :
    String → String → ℕ → SessionRegistry → Response (Unit {0}) × SessionRegistry
unfolding get_record access_error
require_session sid tenant now g =
    let (r, g') = get_record sid (some tenant) now g in
    elim r [ ok _ ↦ (reply tt, g') | err e ↦ (access_error e, g') ]

-- `_state_session`
unfoldable pub state_session :
    String → String → ℕ → ℕ → SessionRegistry → Response Env × SessionRegistry
unfolding get access_error
state_session sid tenant now later g =
    let (r, g') = get sid (some tenant) now later g in
    elim r [ ok e ↦ (reply e, g') | err e ↦ (access_error e, g') ]

-- `env` in the handler is the object in the registry: a step changes the record's environment
abbrev pub put_env : String → Env → SessionRegistry → SessionRegistry
put_env sid e g = elim (lookup text_dec sid g.records) [
  | none ↦ g
  | some r ↦ set_record sid (record r { env = e }) g
]

-- the block of the `try`, over the environment that `registry.get` returned
unfoldable pub try_step :
    (String → String) → String → UiAction → String → ℕ → Env → Action SessionRegistry StepResult
unfolding mark_completed save_checkpoint
try_step trim sid action tenant now e g =
    let (r, e') = Environment.step trim action e in
    let g1 = put_env sid e' g in
    elim r [
      | err x ↦ (err x, g1)
      | ok res ↦
          let (saved, g2) =
            if res.done
            then mark_completed sid (some tenant) now g1
            else save_checkpoint sid now g1 in
          elim saved [ ok _ ↦ (ok res, g2) | err x ↦ (err x, g2) ]
    ]

-- the `except RuntimeError` clause: it marks the session failed, and may raise again
unfoldable pub handle_failure :
    String → String → ℕ → Exception → SessionRegistry → Response StepResult × SessionRegistry
unfolding mark_failed is_runtime_error
handle_failure sid tenant now e g =
    if is_runtime_error e
    then (let (r, g') = mark_failed sid (some tenant) now g in
        elim r [ ok _ ↦ (http_error 409, g') | err x ↦ (escapes x, g') ])
    else (escapes e, g)

-- `_step_session`: the four clock readings are those of `get` (two), of the save and of `mark_failed`
unfoldable pub step_session :
    (String → String)
    → String
    → UiAction
    → String
    → ℕ
    → ℕ
    → ℕ
    → ℕ
    → SessionRegistry
    → Response StepResult × SessionRegistry
step_session trim sid action tenant n0 n1 n2 n3 g =
    let (found, g1) = get sid (some tenant) n0 n1 g in
    elim found [
      | err e ↦ (access_error e, g1)
      | ok env ↦
          let (r, g2) = try_step trim sid action tenant n2 env g1 in
          elim r [ ok res ↦ (reply res, g2) | err e ↦ handle_failure sid tenant n3 e g2 ]
    ]
