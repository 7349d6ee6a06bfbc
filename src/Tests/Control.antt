-- ===== src/Tests/Control.antt =====
-- Runs of the orchestrator's and the reliability parts: src/project_mimic/orchestrator and
-- src/project_mimic/reliability.py.
use project_mimic.Prelude.{
  length, replicate, All, ltb, leb, if◌then◌else◌, ℕ, zero, suc, ◌+◌, ◌*◌, ◌≤◌, ◌<◌, String, ◌≡◌,
  refl, inl, true, false, none, some, List, [], ◌∷◌, arith,
}
use project_mimic.Orchestrator.StateMachine.{
  ActionState, StepSignal, ActionStateMachine, run, is_terminal, observe, hypothesize, recover,
  complete, fail,
}
use project_mimic.Orchestrator.StateMachine as machine
use project_mimic.Orchestrator.StateMachine.Bounds.{run_bounded, run_terminates}
use project_mimic.Orchestrator.RetryBudget.{RetryBudgetManager}
use project_mimic.Orchestrator.Cycle.{init, run_cycle}
use project_mimic.Orchestrator.Cycle.Redundancy.{IsSynced, run_cycle-run, init-IsSynced}
use project_mimic.Orchestrator.BehaviorTree.{
  NodeStatus, success, failure, running, Node, Nodes, task, sequence, selector, quorum, nil, cons,
  tick,
}
use project_mimic.Orchestrator.BehaviorTree.Ticks.{
  statuses, first_stop, best, count_status, tick-sequence, tick-selector, tick-quorum,
}
use project_mimic.Reliability.Retry.{
  Outcome, returned, raised, retry_with_backoff, is_retried, ending_of, retry_with_backoff_lem,
}
use project_mimic.Reliability.CircuitBreaker as breaker
use project_mimic.Reliability.CircuitBreaker.{
  CircuitBreaker, CircuitBreakerConfig, closed, open_circuit, half_open, allow_request,
  record_failure, record_success,
}
use project_mimic.Reliability.CircuitBreaker.Laws as breakers
use project_mimic.Reliability.CircuitBreaker.Laws.{
  fails, allows, succeeds, failures, IsConsistent, run-IsConsistent, new-IsConsistent,
}
use project_mimic.Reliability.Backoff.{BackoffPolicy, IsWhole, down, delay_ms, delay_ms_bounds}

-- every check of a step passes, but the last one
abbrev lost : StepSignal
lost = record {
  frame_ready = true;
  intent_confident = true;
  target_resolved = true;
  motion_planned = true;
  events_ack = true;
  verify_ok = false;
}

-- a step on whose frame no intent is confident
abbrev vague : StepSignal
vague = record lost { intent_confident = false }

abbrev vague_steps : List StepSignal
vague_steps = replicate 7 vague

abbrev machine_of : ℕ → ActionStateMachine
machine_of n = machine.new n

run_bounded_example :
    ((run vague_steps (machine_of 1)).retry_count ≤ 1)
    × (length (run vague_steps (machine_of 1)).history ≤ 7 * 1 + 8)
run_bounded_example = run_bounded 1 vague_steps

vague-ready : (n : ℕ) → All (λ (g : StepSignal). g.frame_ready ≡ true) (replicate n vague)
vague-ready zero = tt
vague-ready (suc n) = (refl, vague-ready n)

run_terminates_example : is_terminal (run vague_steps (machine_of 0)) ≡ true
run_terminates_example = run_terminates 0 vague_steps (vague-ready 7) (omega arith)

run_cycle-run_example :
    ((run_cycle (λ n. n) vague_steps (init 1)).state_machine.state
      ≡ (run vague_steps (init 1).state_machine).state)
    × IsSynced (run_cycle (λ n. n) vague_steps (init 1))
run_cycle-run_example = run_cycle-run (λ n. n) vague_steps (init 1) (init-IsSynced 1)

abbrev budget : RetryBudgetManager
budget = record { per_state_caps = (recover, 1) ∷ (hypothesize, 2) ∷ []; usage = (recover, 1) ∷ [] }

-- a tree over a counter: its tasks count their calls
abbrev says : NodeStatus → Node ℕ
says x = task (λ n. (x, n + 1))

abbrev three : Nodes ℕ
three = cons (says success) (cons (says running) (cons (says failure) nil))

tick-sequence_example : (tick (sequence three) 0).0 ≡ first_stop (statuses three 0)
tick-sequence_example = tick-sequence three 0

tick-selector_example :
    (tick (selector three) 0).0
    ≡ best (count_status success (statuses three 0)) (count_status running (statuses three 0))
tick-selector_example = tick-selector three 0

tick-quorum_example : (tick (quorum three 2) 0).0 ≡ (
    if leb 2 (count_status success (statuses three 0))
    then success
    else if ltb
        (count_status success (statuses three 0) + count_status running (statuses three 0))
        2
    then failure
    else running)
tick-quorum_example = tick-quorum three 2 0

abbrev flaky : ℕ → Outcome ℕ String
flaky n = if ltb n 2 then raised "timeout" else returned n

flaky_retries : (j : ℕ) → j < 2 → is_retried flaky (λ e. true) (λ n. n) j ≡ true
flaky_retries j h = ground arith

retry_with_backoff_lem_example :
    ((retry_with_backoff flaky (λ e. true) (λ n. n) 5).ending
      ≡ ending_of flaky (λ e. true) (λ n. n) 2)
    × ((retry_with_backoff flaky (λ e. true) (λ n. n) 5).calls ≡ 3)
    × (length (retry_with_backoff flaky (λ e. true) (λ n. n) 5).retries ≡ 2)
retry_with_backoff_lem_example =
    retry_with_backoff_lem flaky (λ e. true) (λ n. n) 5 2 (omega arith) flaky_retries (inl refl)

abbrev config : CircuitBreakerConfig
config = record { failure_threshold = 1; recovery_timeout = 10 }

abbrev calm : CircuitBreaker
calm = breaker.new config

abbrev broken : CircuitBreaker
broken = record { config = config; state = open_circuit; failure_count = 1; opened_at = some 4 }

abbrev times : List ℕ
times = 1 ∷ 2 ∷ []

run-IsConsistent_example :
    IsConsistent (breakers.run (fails 1 ∷ allows 20 ∷ succeeds ∷ []) (breaker.new config))
run-IsConsistent_example =
    run-IsConsistent (fails 1 ∷ allows 20 ∷ succeeds ∷ []) (breaker.new config)
      (new-IsConsistent config)

abbrev slow : BackoffPolicy
slow = record { base_delay_ms = 100; max_delay_ms = 5000; jitter_hundredths = 10; max_attempts = 4 }

delay_ms_bounds_example :
    IsWhole (delay_ms (λ seed span. down span) none slow 2 (some 7)) (400 * 100) (down (400 * 10))
    × (100 * delay_ms (λ seed span. down span) none slow 2 (some 7) ≤ 400 * 100 + 400 * 10)
    × (400 * 90 < 100 * (delay_ms (λ seed span. down span) none slow 2 (some 7) + 1))
delay_ms_bounds_example =
    delay_ms_bounds (λ seed span. down span) none (λ seed span. omega arith) slow 2 (some 7)
