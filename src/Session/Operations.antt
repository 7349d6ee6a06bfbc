-- ===== src/Session/Operations.antt =====
-- The operations of `SessionRegistry` on one session and on all, in
-- src/project_mimic/session_lifecycle.py.
use project_mimic.Prelude.{
  ltb, if◌then◌else◌, text_dec, key_error, access_denied, checkpoint_recovery, Result, ok, err,
  Action, ℕ, ◌+◌, String, ite, Bool, false, Option, none, some, [], ◌∷◌,
}
use project_mimic.Dict.{Dict, lookup}
use project_mimic.Environment
use project_mimic.Environment.{Env, EnvPayload}
use project_mimic.Session.Types.{
  SessionStatus, running, paused, completed, failed, expired, SessionRecord, Checkpoint,
  SessionRegistry,
}
use project_mimic.Session.{
  transition, set_record, persist_checkpoint, commit, get_record, on_record, is_terminal, touched,
}

-- `restore`: the checkpoint itself
unfoldable pub restore : String → Option String → SessionRegistry → Result Checkpoint
restore sid tenant g = elim (lookup text_dec sid g.checkpoints) [
  | none ↦ err (key_error sid)
  | some c ↦ elim tenant [
    | none ↦ ok c
    | some t ↦ ite (text_dec c.tenant_id t) (ok c) (err access_denied)
  ]
]

-- a record whose environment was loaded goes on running, unless it is terminal
unfoldable pub resumed : SessionRecord → Result SessionRecord
unfolding transition
resumed r = if is_terminal r.status then ok r else transition running r

-- the rest of `rollback_to_checkpoint` for a state that was found; `load_state` ends with an
-- observation, which may raise after the environment has changed
unfoldable pub roll_back :
    (String → String) → String → EnvPayload → ℕ → SessionRecord → Action SessionRegistry Env
unfolding resumed persist_checkpoint
roll_back trim sid payload now r g =
    let r1 = record r { env = Environment.load_state payload r.env } in
    elim (Environment.observation trim "restore" r1.env) [
      | err e ↦ (err e, set_record sid r1 g)
      | ok _ ↦ elim (resumed r1) [
        | err e ↦ (err e, set_record sid r1 g)
        | ok r2 ↦ let r3 = touched g now r2 in (ok r3.env, commit sid r3 g)
      ]
    ]

unfoldable pub state_of : Option Checkpoint → Result EnvPayload
state_of none = err (checkpoint_recovery "checkpoint not found")
state_of (some c) = elim c.state [
  | none ↦ err (checkpoint_recovery "checkpoint payload missing state")
  | some s ↦ ok s
]

-- also `resume_from_checkpoint`
unfoldable pub rollback_to_checkpoint :
    (String → String) → String → Option String → ℕ → ℕ → Action SessionRegistry Env
unfolding get_record roll_back state_of
rollback_to_checkpoint trim sid tenant now later g =
    on_record
      (λ r g1. elim (state_of (lookup text_dec sid g1.checkpoints)) [
        | err e ↦ (err e, g1)
        | ok payload ↦ roll_back trim sid payload later r g1
      ])
      (get_record sid tenant now g)

-- `mark_completed`, `mark_failed`, `pause` and `resume`, by the status that they move to
unfoldable pub move_to :
    SessionStatus → String → Option String → ℕ → Action SessionRegistry (Unit {0})
unfolding get_record transition persist_checkpoint
move_to target sid tenant now g =
    on_record
      (λ r g1. elim (transition target r) [
        | ok r' ↦ (ok tt, commit sid r' g1)
        | err e ↦ (err e, g1)
      ])
      (get_record sid tenant now g)

unfoldable pub mark_completed : String → Option String → ℕ → Action SessionRegistry (Unit {0})
unfolding move_to
mark_completed = move_to completed

unfoldable pub mark_failed : String → Option String → ℕ → Action SessionRegistry (Unit {0})
unfolding move_to
mark_failed = move_to failed

unfoldable pub pause : String → Option String → ℕ → Action SessionRegistry (Unit {0})
unfolding move_to
pause = move_to paused

unfoldable pub resume : String → Option String → ℕ → Action SessionRegistry (Unit {0})
unfolding move_to
resume = move_to running

unfoldable pub save_checkpoint : String → ℕ → Action SessionRegistry (Unit {0})
unfolding get_record persist_checkpoint
save_checkpoint sid now g =
    on_record (λ r g1. (ok tt, persist_checkpoint sid r g1)) (get_record sid none now g)

-- whether `scavenge_expired` expires a record
abbrev pub is_stale : ℕ → SessionRecord → Bool
is_stale now r = if is_terminal r.status then false else ltb r.expires_at now

-- the loop of `scavenge_expired` over the records that are left
unfoldable pub scavenge : ℕ → Dict String SessionRecord → ℕ → SessionRegistry → ℕ × SessionRegistry
unfolding persist_checkpoint
scavenge now [] n g = (n, g)
scavenge now ((sid, r) ∷ rest) n g =
    let g' = if is_stale now r then commit sid (record r { status = expired }) g else g in
    scavenge now rest (if is_stale now r then n + 1 else n) g'

unfoldable pub scavenge_expired : ℕ → SessionRegistry → ℕ × SessionRegistry
unfolding scavenge
scavenge_expired now g = scavenge now g.records 0 g
