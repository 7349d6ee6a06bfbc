-- ===== src/Orchestrator/StateMachine/Bounds.antt =====
-- What holds of the action state machine over every sequence of signals.
use project_mimic.Prelude.{
  length, length-append, All, ℕ, ◌+◌, ◌-◌, ◌*◌, ◌≤◌, ◌<◌, ◌≡◌, refl, ◌∙◌, ◌⊎◌, inl, inr, true, List,
  [], ◌∷◌, arith,
}
use project_mimic.Orchestrator.StateMachine.{
  ActionState, observe, hypothesize, ground_target, plan_motion, execute, verify, recover, complete,
  fail, StepSignal, ActionStateMachine, new, is_terminal, apply, run,
}

-- how far into a round of the lifecycle a state stands
abbrev rank : ActionState → ℕ
rank observe = 1
rank hypothesize = 2
rank ground_target = 3
rank plan_motion = 4
rank execute = 5
rank verify = 6
rank recover = 7
rank complete = 7
rank fail = 8

pub record IsBounded (m : ActionStateMachine) : Type 0 where
  pub retries : m.retry_count ≤ m.max_retries
  pub visits : length m.history ≤ 7 * m.retry_count + rank m.state
  pub failed : m.state ≡ fail → m.retry_count ≡ m.max_retries

apply-IsBounded : (g : StepSignal) (m : ActionStateMachine) → IsBounded m → IsBounded (apply g m)
unfolding apply
apply-IsBounded g m b = grind (arith, length-append)

run-IsBounded : (gs : List StepSignal) (m : ActionStateMachine) → IsBounded m → IsBounded (run gs m)
unfolding run
run-IsBounded [] m b = b
run-IsBounded (g ∷ gs) m b = run-IsBounded gs (apply g m) (apply-IsBounded g m b)

max_retries-run :
    (gs : List StepSignal) (m : ActionStateMachine) → (run gs m).max_retries ≡ m.max_retries
unfolding run apply
max_retries-run [] m = refl
max_retries-run (g ∷ gs) m = max_retries-run gs (apply g m) ∙ ground arith

new-IsBounded : (n : ℕ) → IsBounded (new n)
unfolding new
new-IsBounded n = record { retries = omega arith; visits = omega arith; failed = λ e. cc }

new_max : (n : ℕ) → (new n).max_retries ≡ n
unfolding new
new_max n = refl

rank-le : (s : ActionState) → rank s ≤ 8
rank-le s = ground arith

-- Whatever the signals, a fresh machine retries at most `max_retries` times and visits at most
-- 7 * max_retries + 8 states.
pub run_bounded :
    (n : ℕ) (gs : List StepSignal)
    → ((run gs (new n)).retry_count ≤ n) × (length (run gs (new n)).history ≤ 7 * n + 8)
run_bounded n gs =
    let b = run-IsBounded gs (new n) (new-IsBounded n) in
    let same = max_retries-run gs (new n) in
    (
      omega (arith, b.retries, same, new_max n),
      omega (arith, b.retries, b.visits, same, new_max n, rank-le (run gs (new n)).state),
    )

-- A machine that started fresh and is in `fail` has used up all its retries.
run-fail :
    (n : ℕ) (gs : List StepSignal)
    → (run gs (new n)).state ≡ fail
    → (run gs (new n)).retry_count ≡ n
run-fail n gs e =
    (run-IsBounded gs (new n) (new-IsBounded n)).failed e ∙ max_retries-run gs (new n) ∙ new_max n

apply_of_terminal : (g : StepSignal) (m : ActionStateMachine) → is_terminal m ≡ true → apply g m ≡ m
unfolding apply is_terminal
apply_of_terminal g m h = ground arith

-- A completed or failed machine ignores every signal.
pub run_of_terminal :
    (gs : List StepSignal) (m : ActionStateMachine) → is_terminal m ≡ true → run gs m ≡ m
unfolding run
run_of_terminal [] m h = refl
run_of_terminal (g ∷ gs) m h = rw (apply_of_terminal g m h) (run_of_terminal gs m h)

-- the most signals that a machine which sees every frame can still take
abbrev left : ActionStateMachine → ℕ
left m = 7 * (m.max_retries - m.retry_count) + (8 - rank m.state)

apply-left :
    (g : StepSignal) (m : ActionStateMachine)
    → m.retry_count ≤ m.max_retries
    → g.frame_ready ≡ true
    → (is_terminal m ≡ true) ⊎ (left (apply g m) < left m)
unfolding apply is_terminal
apply-left g m b h = ground arith

run_terminates_from :
    (gs : List StepSignal) (m : ActionStateMachine)
    → IsBounded m
    → All (λ g. g.frame_ready ≡ true) gs
    → left m ≤ length gs
    → is_terminal (run gs m) ≡ true
unfolding run
run_terminates_from [] m b a h = unfold is_terminal in ground (arith, b.retries)
run_terminates_from (g ∷ gs) m b a h = elim (apply-left g m b.retries a.0) [
  | inl t ↦ rw (apply_of_terminal g m t, run_of_terminal gs m t) t
  | inr l ↦ run_terminates_from gs (apply g m) (apply-IsBounded g m b) a.1 (omega arith)
]

-- If the frame is ready in every signal, a fresh machine is complete or has failed after
-- 7 * max_retries + 7 signals, whatever else the signals say.
pub run_terminates :
    (n : ℕ) (gs : List StepSignal)
    → All (λ g. g.frame_ready ≡ true) gs
    → 7 * n + 7 ≤ length gs
    → is_terminal (run gs (new n)) ≡ true
run_terminates n gs a h =
    run_terminates_from gs (new n) (new-IsBounded n) a (unfold new in omega arith)
