-- ===== src/Session.antt =====
-- src/project_mimic/session_lifecycle.py: `SessionRegistry` over its in-memory stores.
-- Each reading of the clock is an argument, in whole ticks, and so is the id of a new session.
pub mod Types
pub mod Operations
pub mod Handlers
pub mod Status
pub mod History
pub mod Access
pub mod Listing
use project_mimic.Prelude.{
  ite-elim, length, length-append, replicate, keep, any, take, All, count, member, without, remove,
  count-append, count-without, count-remove_ne, count-remove_self, member-count, not-member-count,
  ltb, leb, ◌==◌, if◌then◌else◌, is_some, Bool-cases, Option-cases, ltb→lt, leb→le, le→leb, lt→ltb,
  text_dec, strip, is_empty, strip-strip, Exception, value_error, key_error, runtime_error,
  session_expired, invalid_transition, access_denied, checkpoint_recovery, Result, ok, err, Action,
  pure, raise, lift, gets, or_raise, raise_if, modify, ◌>>=◌, ◌>>◌, ℕ, zero, suc, ◌+◌, ◌-◌, ◌*◌,
  ◌/◌, ◌%◌, ◌^◌, ◌≤◌, ◌<◌, min, max, String, ◌≡◌, refl, sym, ap, ◌∙◌, subst, ◌≢◌, ◌↔◌, ◌⊎◌, inl,
  inr, ite, Bool, true, false, not, ◌&&◌, ◌||◌, Option, none, some, List, [], ◌∷◌, ◌++◌, map, arith,
  ℕ_discrete,
}
use project_mimic.Dict.{Dict, lookup, insert}
use project_mimic.Environment
use project_mimic.Environment.{Env}
use Types.{
  SessionStatus, created, running, paused, completed, failed, expired, status_dec, allowed,
  SessionRecord, Checkpoint, Metadata, SessionRegistry,
}

unfoldable pub new : ℕ → Result SessionRegistry
new ttl =
    if leb ttl 0
    then err (value_error "ttl_seconds must be positive")
    else ok (record { ttl = ttl; records = []; checkpoints = []; metadata = [] })

-- `_transition`
unfoldable pub transition : SessionStatus → SessionRecord → Result SessionRecord
unfolding allowed status_dec
transition target r =
    if allowed r.status target || ite (status_dec target r.status) true false
    then ok (record r { status = target })
    else err invalid_transition

-- `_ensure_tenant_access`
abbrev pub may_access : SessionRecord → Option String → Bool
may_access r none = true
may_access r (some tenant) = ite (text_dec r.tenant_id tenant) true false

abbrev pub set_record : String → SessionRecord → SessionRegistry → SessionRegistry
set_record sid r g = record g { records = insert text_dec sid r g.records }

-- `_persist_metadata`
unfoldable pub persist_metadata : String → SessionRecord → SessionRegistry → SessionRegistry
persist_metadata sid r g = record g {
  metadata =
      insert text_dec sid
        (record {
          goal = r.env.goal;
          status = r.status;
          created_at = r.created_at;
          last_accessed_at = r.last_accessed_at;
          expires_at = r.expires_at;
          tenant_id = r.tenant_id;
        })
        g.metadata;
}

abbrev pub checkpoint_of : SessionRecord → Checkpoint
checkpoint_of r = record {
  state = some (Environment.state r.env);
  status = r.status;
  created_at = r.created_at;
  last_accessed_at = r.last_accessed_at;
  expires_at = r.expires_at;
  tenant_id = r.tenant_id;
}

-- `_persist_checkpoint`
unfoldable pub persist_checkpoint : String → SessionRecord → SessionRegistry → SessionRegistry
unfolding persist_metadata
persist_checkpoint sid r g =
    persist_metadata sid r
      (record g { checkpoints = insert text_dec sid (checkpoint_of r) g.checkpoints })

-- the record is written back, and saved
abbrev pub commit : String → SessionRecord → SessionRegistry → SessionRegistry
commit sid r g = persist_checkpoint sid r (set_record sid r g)

-- `_ensure_not_expired`; the record that it may mark stays in the registry
unfoldable pub ensure_not_expired :
    String → SessionRecord → ℕ → Action SessionRegistry SessionRecord
unfolding transition
ensure_not_expired sid r now g =
    if ltb r.expires_at now
    then elim (transition expired r) [
      | ok r' ↦ (err session_expired, set_record sid r' g)
      | err e ↦ (err e, g)
    ]
    else (ok r, g)

unfoldable pub get_record : String → Option String → ℕ → Action SessionRegistry SessionRecord
unfolding ensure_not_expired
get_record sid tenant now g = elim (lookup text_dec sid g.records) [
  | none ↦ (err (key_error sid), g)
  | some r ↦ if may_access r tenant then ensure_not_expired sid r now g else (err access_denied, g)
]

-- what follows a record that was got
abbrev pub on_record :
    {A : Type 0}
    → (SessionRecord → Action SessionRegistry A)
    → Result SessionRecord × SessionRegistry
    → Result A × SessionRegistry
on_record f (ok r, g) = f r g
on_record f (err e, g) = (err e, g)

-- `get`: the environment of the session
unfoldable pub get : String → Option String → ℕ → ℕ → Action SessionRegistry Env
unfolding get_record persist_metadata
get sid tenant now later g =
    on_record
      (λ r g1.
        let r' = record r { last_accessed_at = later } in
        (ok r'.env, persist_metadata sid r' (set_record sid r' g1)))
      (get_record sid tenant now g)

unfoldable pub create : String → ℕ → String → String → ℕ → Action SessionRegistry String
unfolding transition persist_checkpoint
create goal max_steps tenant sid now g = elim (Environment.new goal max_steps) [
  | err e ↦ (err e, g)
  | ok e ↦
      let r : SessionRecord = record {
        env = Environment.reset none e;
        status = created;
        created_at = now;
        last_accessed_at = now;
        expires_at = now + g.ttl;
        tenant_id = tenant;
      } in
      let g1 = set_record sid r g in
      elim (transition running r) [ ok r' ↦ (ok sid, commit sid r' g1) | err x ↦ (err x, g1) ]
]

abbrev pub is_terminal : SessionStatus → Bool
is_terminal completed = true
is_terminal failed = true
is_terminal expired = true
is_terminal _ = false

abbrev touched : SessionRegistry → ℕ → SessionRecord → SessionRecord
touched g now r = record r { last_accessed_at = now; expires_at = now + g.ttl }

unfoldable pub reset : String → Option String → Option String → ℕ → ℕ → Action SessionRegistry Env
unfolding get_record transition persist_checkpoint
reset sid goal tenant now later g =
    on_record
      (λ r g1.
        if is_terminal r.status then (err invalid_transition, g1) else elim (transition running r) [
          | err e ↦ (err e, g1)
          | ok r1 ↦
              let r2 = touched g1 later (record r1 { env = Environment.reset goal r1.env }) in
              (ok r2.env, commit sid r2 g1)
        ])
      (get_record sid tenant now g)
