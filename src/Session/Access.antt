-- ===== src/Session/Access.antt =====
-- Who may use a session and for how long, and what a rollback restores.
use project_mimic.Prelude.{
  ltb, lt→ltb, text_dec, runtime_error, session_expired, invalid_transition, access_denied, Result,
  ok, err, ℕ, ◌+◌, ◌≤◌, ◌<◌, String, ◌≡◌, refl, ap, ◌≢◌, true, false, Option, some, arith,
}
use project_mimic.Dict.{lookup, lookup-insert}
use project_mimic.Environment
use project_mimic.Environment.{Env, EnvPayload, UiAction, StepResult}
use project_mimic.Session.Types.{
  SessionStatus, Checkpoint, created, running, completed, failed, expired, status_dec, allowed,
  SessionRecord, SessionRegistry,
}
use project_mimic.Session.{
  transition, may_access, commit, persist_checkpoint, set_record, persist_metadata,
  ensure_not_expired, get_record, on_record, is_terminal, get, reset, checkpoint_of,
}
use project_mimic.Session.Operations.{
  mark_failed, restore, roll_back, resumed, rollback_to_checkpoint, move_to, state_of,
}
use project_mimic.Session.Handlers.{
  is_runtime_error, Response, escapes, status_of, step_session, try_step, handle_failure, put_env,
}

late_transition : SessionStatus → SessionRecord → Result SessionRecord
late_transition completed r = err invalid_transition
late_transition failed r = err invalid_transition
late_transition _ r = ok (record r { status = expired })

transition-late :
    (s : SessionStatus) (r : SessionRecord)
    → r.status ≡ s
    → transition expired r ≡ late_transition s r
unfolding transition allowed status_dec late_transition
transition-late created r e = ground arith
transition-late _ r e = ground arith

resumed-live :
    (r : SessionRecord)
    → is_terminal r.status ≡ false
    → resumed r ≡ ok (record r { status = running })
unfolding resumed transition allowed status_dec
resumed-live r live = ground arith

load_state-state : (e e' : Env) → Environment.load_state (Environment.state e) e' ≡ e
unfolding Environment.load_state Environment.state
load_state-state e e' = refl

-- a session that goes on from the environment of a checkpoint
abbrev resumed_from : SessionRecord → ℕ → SessionRegistry → SessionRecord → SessionRecord
resumed_from saved now g r = record r {
  env = saved.env;
  status = running;
  last_accessed_at = now;
  expires_at = now + g.ttl;
}

roll_back-state :
    (trim : String → String) (sid : String) (now : ℕ) (r saved : SessionRecord)
    (g : SessionRegistry) (o : Environment.Observation)
    → is_terminal r.status ≡ false
    → Environment.observation trim "restore" saved.env ≡ ok o
    → roll_back trim sid (Environment.state saved.env) now r g
      ≡ (ok saved.env, commit sid (resumed_from saved now g r) g)
unfolding roll_back Environment.load_state Environment.state
roll_back-state trim sid now r saved g o live seen =
    rw (roll_back, load_state-state, seen, resumed-live (record r { env = saved.env }) live) refl

committed :
    (sid : String) (r : SessionRecord) (g : SessionRegistry)
    → (lookup text_dec sid (commit sid r g).records ≡ some r)
      × (lookup text_dec sid (commit sid r g).checkpoints ≡ some (checkpoint_of r))
unfolding persist_checkpoint persist_metadata
committed sid r g = (
  ground (arith, lookup-insert text_dec sid sid r g.records),
  ground (arith, lookup-insert text_dec sid sid (checkpoint_of r) g.checkpoints),
)

module _ (sid : String) (r : SessionRecord) (g : SessionRegistry)
    (found : lookup text_dec sid g.records ≡ some r) where
  -- A caller of another tenant is refused by the operations that take a tenant: reading, resetting
  -- and rolling back the session, moving its status, and, where the checkpoint belongs to another
  -- tenant than the caller, restoring the checkpoint. None of them changes anything.
  pub other_tenant_refused :
      (trim : String → String) (tenant : String) (goal : Option String) (target : SessionStatus)
      (now later : ℕ) (c : Checkpoint)
      → r.tenant_id ≢ tenant
      → lookup text_dec sid g.checkpoints ≡ some c
      → c.tenant_id ≢ tenant
      → (get_record sid (some tenant) now g ≡ (err access_denied, g))
        × (get sid (some tenant) now later g ≡ (err access_denied, g))
        × (reset sid goal (some tenant) now later g ≡ (err access_denied, g))
        × (rollback_to_checkpoint trim sid (some tenant) now later g ≡ (err access_denied, g))
        × (move_to target sid (some tenant) now g ≡ (err access_denied, g))
        × (restore sid (some tenant) g ≡ err access_denied)
  unfolding get reset rollback_to_checkpoint move_to restore
  other_tenant_refused trim tenant goal target now later c ne kept other =
      rw refused (refl, refl, refl, refl, refl, ground (arith, kept, other))
    where
      refused : get_record sid (some tenant) now g ≡ (err access_denied, g)
      refused = unfold get_record in rw (get_record, found) (ground arith)

  -- what `get_record` makes of a session after its expiry
  abbrev pub late_result : SessionStatus → Result SessionRecord × SessionRegistry
  late_result completed = (err invalid_transition, g)
  late_result failed = (err invalid_transition, g)
  late_result _ = (err session_expired, set_record sid (record r { status = expired }) g)

  -- After its expiry a session that had not been completed or failed is marked expired and the
  -- caller gets SessionExpiredError; a completed or failed one is left as it was, and the caller
  -- gets InvalidSessionTransitionError instead.
  pub get_record_late :
      (tenant : Option String) (now : ℕ)
      → may_access r tenant ≡ true
      → r.expires_at < now
      → get_record sid tenant now g ≡ late_result r.status
  get_record_late tenant now may late = late_in r.status refl
    where
      late_in : (s : SessionStatus) → r.status ≡ s → get_record sid tenant now g ≡ late_result s
      late_in created e =
          unfold get_record late_transition in
          rw
            (
              get_record,
              found,
              may,
              ensure_not_expired,
              lt→ltb _ _ late,
              transition-late created r e,
            )
            refl
      late_in _ e =
          unfold get_record late_transition in
          rw (get_record, found, may, ensure_not_expired, lt→ltb _ _ late, transition-late _ r e)
            refl

  get_record_live :
      (tenant : Option String) (now : ℕ)
      → may_access r tenant ≡ true
      → now ≤ r.expires_at
      → get_record sid tenant now g ≡ (ok r, g)
  unfolding get_record
  get_record_live tenant now may live =
      rw (get_record, found, may, ensure_not_expired, le→not_ltb now r.expires_at live) refl
    where
      le→not_ltb : (a b : ℕ) → a ≤ b → ltb b a ≡ false
      le→not_ltb a b h = ground arith

  -- `rollback_to_checkpoint` on a session that the caller may use, which is neither over nor past
  -- its expiry, and whose checkpoint was saved from a record `saved` whose environment passes the
  -- validation of an observation: it returns the environment of `saved`, goal, counters, history
  -- and all, whatever the session's environment has become, and the registry then holds the
  -- session with that environment, running, with the lifetime begun anew, and a checkpoint of it.
  pub rollback_restores :
      (trim : String → String) (tenant : Option String) (now later : ℕ) (saved : SessionRecord)
      (o : Environment.Observation)
      → may_access r tenant ≡ true
      → now ≤ r.expires_at
      → is_terminal r.status ≡ false
      → lookup text_dec sid g.checkpoints ≡ some (checkpoint_of saved)
      → Environment.observation trim "restore" saved.env ≡ ok o
      → let result = rollback_to_checkpoint trim sid tenant now later g in
        let after : SessionRecord = record r {
          env = saved.env;
          status = running;
          last_accessed_at = later;
          expires_at = later + g.ttl;
        } in
        (result.0 ≡ ok saved.env)
        × (lookup text_dec sid result.1.records ≡ some after)
        × (lookup text_dec sid result.1.checkpoints ≡ some (checkpoint_of after))
  unfolding rollback_to_checkpoint state_of
  rollback_restores trim tenant now later saved o may live going kept seen =
      let done : rollback_to_checkpoint trim sid tenant now later g
          ≡ (ok saved.env, commit sid (resumed_from saved later g r) g) =
        rw (rollback_to_checkpoint, get_record_live tenant now may live, on_record, kept, state_of)
          (roll_back-state trim sid later r saved g o going seen) in
      let stored = committed sid (resumed_from saved later g r) g in
      rw done (refl, stored.0, stored.1)

  mark_completed_again :
      (tenant : Option String) (now : ℕ)
      → may_access r tenant ≡ true
      → now ≤ r.expires_at
      → r.status ≡ completed
      → move_to failed sid tenant now g ≡ (err invalid_transition, g)
  unfolding move_to transition allowed status_dec
  mark_completed_again tenant now may live ended =
      rw (move_to, get_record_live tenant now may live) (ground arith)

put_env_same :
    (sid : String) (r : SessionRecord) (g : SessionRegistry)
    → lookup text_dec sid g.records ≡ some r
    → lookup text_dec sid (put_env sid r.env g).records ≡ some r
put_env_same sid r g found = ground (arith, found, lookup-insert text_dec sid sid r g.records)

-- the record that `get` leaves
abbrev seen_at : ℕ → SessionRecord → SessionRecord
seen_at now r = record r { last_accessed_at = now }

get-live :
    (sid : String) (r : SessionRecord) (g : SessionRegistry) (tenant : Option String)
    (now later : ℕ)
    → lookup text_dec sid g.records ≡ some r
    → may_access r tenant ≡ true
    → now ≤ r.expires_at
    → ((get sid tenant now later g).0 ≡ ok r.env)
      × (lookup text_dec sid (get sid tenant now later g).1.records ≡ some (seen_at later r))
unfolding get persist_metadata
get-live sid r g tenant now later found may live =
    rw (get, get_record_live sid r g found tenant now may live)
      (refl, ground (arith, lookup-insert text_dec sid sid (seen_at later r) g.records))

refused_step :
    (trim : String → String) (action : UiAction) (e : Env)
    → e.done ≡ true
    → Environment.step trim action e
      ≡ (err (runtime_error "cannot call step() on a completed episode; call reset() first"), e)
unfolding Environment.step
refused_step trim action e d = rw (d, Environment.step)

step_failed :
    (trim : String → String) (sid : String) (action : UiAction) (tenant : String) (now : ℕ)
    (e : Env) (g : SessionRegistry)
    → e.done ≡ true
    → try_step trim sid action tenant now e g ≡ (
      err (runtime_error "cannot call step() on a completed episode; call reset() first"),
      put_env sid e g,
    )
unfolding try_step
step_failed trim sid action tenant now e g d =
    let r = refused_step trim action e d in
    rw (try_step, r, ap (λ (x : Result StepResult × Env). x.1) r) refl

handle_completed :
    (sid : String) (r : SessionRecord) (g : SessionRegistry) (tenant : String) (now : ℕ)
    (m : String)
    → lookup text_dec sid g.records ≡ some r
    → may_access r (some tenant) ≡ true
    → now ≤ r.expires_at
    → r.status ≡ completed
    → handle_failure sid tenant now (runtime_error m) g ≡ (escapes invalid_transition, g)
unfolding handle_failure mark_failed is_runtime_error
handle_completed sid r g tenant now m found may live ended =
    let refused = mark_completed_again sid r g found (some tenant) now may live ended in
    rw
      (
        handle_failure,
        mark_failed,
        refused,
        ap (λ (x : Result Unit × SessionRegistry). x.1) refused,
      )
      refl

-- A step of a completed session whose episode is done, by its tenant and before its expiry, does
-- not end in the HTTP error 409 that the handler means to send: marking the session failed raises
-- in the `except` clause, that exception leaves the handler, and the application answers 500.
pub step_completed_escapes :
    (trim : String → String) (sid : String) (action : UiAction) (tenant : String) (n0 n1 n2 n3 : ℕ)
    (r : SessionRecord) (g : SessionRegistry)
    → lookup text_dec sid g.records ≡ some r
    → may_access r (some tenant) ≡ true
    → n0 ≤ r.expires_at
    → n3 ≤ r.expires_at
    → r.status ≡ completed
    → r.env.done ≡ true
    → ((step_session trim sid action tenant n0 n1 n2 n3 g).0 ≡ escapes invalid_transition)
      × (status_of (step_session trim sid action tenant n0 n1 n2 n3 g).0 ≡ 500)
unfolding step_session status_of
step_completed_escapes trim sid action tenant n0 n1 n2 n3 r g found may live later ended over =
    let (got, kept) = get-live sid r g (some tenant) n0 n1 found may live in
    let g1 = (get sid (some tenant) n0 n1 g).1 in
    let tried = step_failed trim sid action tenant n2 r.env g1 over in
    let escaped : (step_session trim sid action tenant n0 n1 n2 n3 g).0
        ≡ escapes invalid_transition =
      rw (step_session, got, tried, ap (λ (x : Result StepResult × SessionRegistry). x.1) tried)
        (ap (λ (x : Response StepResult × SessionRegistry). x.0)
          (handle_completed sid (seen_at n1 r) (put_env sid r.env g1) tenant n3 _
            (put_env_same sid (seen_at n1 r) g1 kept) may later ended)) in
    (escaped, ap status_of escaped)
