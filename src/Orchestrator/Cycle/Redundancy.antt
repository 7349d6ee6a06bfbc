-- ===== src/Orchestrator/Cycle/Redundancy.antt =====
-- The retry budget of `run_cycle` against the retry bound of the state machine itself.
use project_mimic.Prelude.{
  if◌then◌else◌, Bool-cases, ℕ, ◌+◌, ◌≤◌, ◌≡◌, refl, sym, ap, ◌∙◌, inl, inr, Bool, true, false,
  List, [], ◌∷◌, arith,
}
use project_mimic.Dict.{lookup-insert}
use project_mimic.Orchestrator.StateMachine.{
  ActionState, observe, hypothesize, recover, fail, state_dec, StepSignal, ActionStateMachine, new,
  is_terminal, apply, run,
}
use project_mimic.Orchestrator.StateMachine.Bounds.{run_of_terminal}
use project_mimic.Orchestrator.RetryBudget.{used, consume, caps-consume}
use project_mimic.Orchestrator.Cycle.{DecisionOrchestrator, init, exhaust, advance, run_cycle}

-- what the budget allows at a state: the uses so far of the two capped states
abbrev hypothesized : ActionState → ℕ
hypothesized observe = 0
hypothesized hypothesize = 0
hypothesized _ = 1

-- The budget has the caps of `init`, and its counts agree with the machine's retries.
pub record IsSynced (o : DecisionOrchestrator) : Type 0 where
  pub caps :
      o.retry_budget.per_state_caps
      ≡ (recover, o.state_machine.max_retries) ∷ (hypothesize, o.state_machine.max_retries + 1) ∷ []
  pub retries : o.state_machine.retry_count ≤ o.state_machine.max_retries
  pub recoveries :
      is_terminal o.state_machine ≡ false
      → used recover o.retry_budget ≡ o.state_machine.retry_count
  pub hypotheses :
      is_terminal o.state_machine ≡ false
      → used hypothesize o.retry_budget
        ≤ o.state_machine.retry_count + hypothesized o.state_machine.state

abbrev after_consume : DecisionOrchestrator → DecisionOrchestrator
after_consume o = record o { retry_budget = (consume o.state_machine.state o.retry_budget).1 }

abbrev granted : DecisionOrchestrator → Bool
granted o = (consume o.state_machine.state o.retry_budget).0

-- The budget refuses only where the machine is about to fail by itself.
refused-fails :
    (g : StepSignal) (o : DecisionOrchestrator)
    → IsSynced o
    → granted o ≡ false
    → (apply g o.state_machine).state ≡ fail
unfolding consume apply is_terminal
refused-fails g o s h = ground (arith, s.caps)

module _ (times : ℕ → ℕ) where
  advance-IsSynced_at :
      (st : ActionState) (g : StepSignal) (o : DecisionOrchestrator)
      → o.state_machine.state ≡ st
      → IsSynced o
      → granted o ≡ true
      → IsSynced (advance times g (after_consume o))
  unfolding consume apply is_terminal advance
  advance-IsSynced_at recover g o e s h = ground (
    arith,
    s.caps,
    lookup-insert state_dec recover recover (used recover o.retry_budget + 1) o.retry_budget.usage,
    lookup-insert state_dec recover hypothesize (used recover o.retry_budget + 1)
        o.retry_budget.usage,
  )
  advance-IsSynced_at hypothesize g o e s h = ground (
    arith,
    s.caps,
    lookup-insert state_dec hypothesize recover (used hypothesize o.retry_budget + 1)
        o.retry_budget.usage,
    lookup-insert state_dec hypothesize hypothesize (used hypothesize o.retry_budget + 1)
        o.retry_budget.usage,
  )
  advance-IsSynced_at _ g o e s h = ground (arith, s.caps)

  next : StepSignal → DecisionOrchestrator → DecisionOrchestrator
  next g o = advance times g (after_consume o)

  run_cycle_of_granted :
      (g : StepSignal) (gs : List StepSignal) (o : DecisionOrchestrator)
      → granted o ≡ true
      → run_cycle times (g ∷ gs) o
        ≡ (if is_terminal (next g o).state_machine then next g o else run_cycle times gs (next g o))
  unfolding run_cycle next
  run_cycle_of_granted g gs o h = rw h

  run_cycle_of_refused :
      (g : StepSignal) (gs : List StepSignal) (o : DecisionOrchestrator)
      → granted o ≡ false
      → run_cycle times (g ∷ gs) o ≡ exhaust times (after_consume o)
  unfolding run_cycle
  run_cycle_of_refused g gs o h = rw h

  machine-next :
      (g : StepSignal) (o : DecisionOrchestrator)
      → (next g o).state_machine ≡ apply g o.state_machine
  unfolding next advance
  machine-next g o = refl

  next-IsSynced :
      (g : StepSignal) (o : DecisionOrchestrator)
      → IsSynced o
      → granted o ≡ true
      → IsSynced (next g o)
  unfolding next
  next-IsSynced g o = advance-IsSynced_at o.state_machine.state g o refl

  exhaust-IsSynced :
      (o : DecisionOrchestrator) → IsSynced o → IsSynced (exhaust times (after_consume o))
  unfolding exhaust is_terminal
  exhaust-IsSynced o s = record {
    caps = caps-consume o.state_machine.state o.retry_budget ∙ s.caps;
    retries = s.retries;
    recoveries = λ e. cc;
    hypotheses = λ e. cc;
  }

  state-exhaust : (o : DecisionOrchestrator) → (exhaust times o).state_machine.state ≡ fail
  unfolding exhaust
  state-exhaust o = refl

  is_terminal_of_fail : (m : ActionStateMachine) → m.state ≡ fail → is_terminal m ≡ true
  unfolding is_terminal
  is_terminal_of_fail m e = ground arith

  AgreesWith : ActionState → DecisionOrchestrator → Type 0
  AgreesWith st o = (o.state_machine.state ≡ st) × IsSynced o

  -- a machine that has ended takes no further signal
  run_of_ended :
      (g : StepSignal) (gs : List StepSignal) (m : ActionStateMachine)
      → is_terminal (apply g m) ≡ true
      → (run (g ∷ gs) m).state ≡ (apply g m).state
  unfolding run
  run_of_ended g gs m h = rw (run_of_terminal gs (apply g m) h)

  advance-AgreesWith :
      (g : StepSignal) (gs : List StepSignal) (o : DecisionOrchestrator)
      → IsSynced (next g o)
      → AgreesWith (run gs (apply g o.state_machine)).state (run_cycle times gs (next g o))
      → AgreesWith
          (run (g ∷ gs) o.state_machine).state
          (if is_terminal (next g o).state_machine then next g o else run_cycle times gs (next g o))
  unfolding AgreesWith
  advance-AgreesWith g gs o s' ih = elim (Bool-cases (is_terminal (next g o).state_machine)) [
    | inl ended ↦ rw ended (
      ap (λ (m : ActionStateMachine). m.state) (machine-next g o)
          ∙ sym (run_of_ended g gs o.state_machine (rw machine-next at ended)),
      s',
    )
    | inr going ↦ rw going (unfold run in ih)
  ]

  -- From an orchestrator whose budget agrees with its machine, `run_cycle` ends in the state in
  -- which the machine alone ends on the same signals: the budget never changes an outcome. The
  -- agreement holds again afterwards.
  pub run_cycle-run :
      (gs : List StepSignal) (o : DecisionOrchestrator)
      → IsSynced o
      → ((run_cycle times gs o).state_machine.state ≡ (run gs o.state_machine).state)
        × IsSynced (run_cycle times gs o)
  unfolding AgreesWith next advance
  run_cycle-run [] o s = unfold run run_cycle in (refl, s)
  run_cycle-run (g ∷ gs) o s = elim (Bool-cases (granted o)) [
    | inr refused ↦
        let failed = refused-fails g o s refused in
        rw (run_cycle_of_refused g gs o refused) (
          state-exhaust (after_consume o)
              ∙ sym (run_of_ended g gs o.state_machine (is_terminal_of_fail _ failed) ∙ failed),
          exhaust-IsSynced o s,
        )
    | inl passed ↦
        let s' = next-IsSynced g o s passed in
        rw (run_cycle_of_granted g gs o passed)
          (advance-AgreesWith g gs o s' (rw machine-next at (run_cycle-run gs (next g o) s')))
  ]

-- A new orchestrator is in agreement.
pub init-IsSynced : (n : ℕ) → IsSynced (init n)
unfolding init new is_terminal
init-IsSynced n = record {
  caps = refl;
  retries = omega arith;
  recoveries = λ e. refl;
  hypotheses = λ e. omega arith;
}
