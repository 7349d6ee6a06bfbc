-- ===== src/Orchestrator/Cycle.antt =====
-- src/project_mimic/orchestrator/decision_orchestrator.py: `run_cycle` and its bookkeeping.
-- The clock reading of the n-th recorded event is `times n`; the tracer's spans are not modelled.
pub mod Redundancy
use project_mimic.Prelude.{ℕ, ◌+◌, List, [], ◌∷◌, ◌++◌, length, if◌then◌else◌}
use project_mimic.Orchestrator.StateMachine
use project_mimic.Orchestrator.StateMachine.{
  ActionState, recover, hypothesize, fail, StepSignal, ActionStateMachine, is_terminal, apply,
}
use project_mimic.Orchestrator.RetryBudget.{RetryBudgetManager, consume, reset_budget}

-- the payloads of the events that `run_cycle` records
pub data EventPayload : Type 0 where
  retry_budget_exhausted : ActionState → EventPayload
  state_transition : ActionState → ℕ → EventPayload

pub record ReplayEvent : Type 0 where
  pub timestamp_ms : ℕ
  pub payload : EventPayload

pub record DecisionOrchestrator : Type 0 where
  pub state_machine : ActionStateMachine
  pub retry_budget : RetryBudgetManager
  pub replay_log : List ReplayEvent

-- `__init__`, for a configuration with `max_retries`
unfoldable pub init : ℕ → DecisionOrchestrator
init max_retries = record {
  state_machine = StateMachine.new max_retries;
  retry_budget = record {
    per_state_caps = (recover, max_retries) ∷ (hypothesize, max_retries + 1) ∷ [];
    usage = [];
  };
  replay_log = [];
}

unfoldable pub reset_cycle : DecisionOrchestrator → DecisionOrchestrator
reset_cycle o = record o {
  state_machine = StateMachine.reset o.state_machine;
  retry_budget = reset_budget o.retry_budget;
}

module _ (times : ℕ → ℕ) where
  unfoldable pub record_event : EventPayload → DecisionOrchestrator → DecisionOrchestrator
  record_event p o = record o {
    replay_log =
        o.replay_log ++ record { timestamp_ms = times (length o.replay_log); payload = p } ∷ [];
  }

  -- the branch that a refused budget takes
  unfoldable pub exhaust : DecisionOrchestrator → DecisionOrchestrator
  unfolding record_event
  exhaust o =
      let o' = record_event (retry_budget_exhausted o.state_machine.state) o in
      record o' { state_machine = record o'.state_machine { state = fail } }

  -- one signal that the budget lets through
  unfoldable pub advance : StepSignal → DecisionOrchestrator → DecisionOrchestrator
  unfolding record_event
  advance g o =
      let m = apply g o.state_machine in
      record_event (state_transition m.state m.retry_count) (record o { state_machine = m })

  -- The state that it returns is that of the machine in the new orchestrator.
  unfoldable pub run_cycle : List StepSignal → DecisionOrchestrator → DecisionOrchestrator
  run_cycle [] o = o
  run_cycle (g ∷ gs) o =
      let (granted, b) = consume o.state_machine.state o.retry_budget in
      let o1 = record o { retry_budget = b } in
      let o2 = advance g o1 in
      let rest = run_cycle gs o2 in
      if granted then (if is_terminal o2.state_machine then o2 else rest) else exhaust o1
