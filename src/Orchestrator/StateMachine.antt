-- ===== src/Orchestrator/StateMachine.antt =====
-- src/project_mimic/orchestrator/state_machine.py: the lifecycle of one action.
pub mod Bounds
use project_mimic.Prelude.{
  ℕ, zero, suc, ◌+◌, ◌≡◌, refl, Bool, true, false, List, [], ◌∷◌, ◌++◌, arith, ite, ltb,
  if◌then◌else◌,
}

pub data ActionState : Type 0 where
  observe hypothesize ground_target plan_motion execute verify recover complete fail : ActionState

unfoldable pub state_dec : Discrete ActionState
state_dec = hlevel

pub record StepSignal : Type 0 where
  pub frame_ready : Bool
  pub intent_confident : Bool
  pub target_resolved : Bool
  pub motion_planned : Bool
  pub events_ack : Bool
  pub verify_ok : Bool

pub record ActionStateMachine : Type 0 where
  pub max_retries : ℕ
  pub retry_count : ℕ
  pub state : ActionState
  pub history : List ActionState

unfoldable pub new : ℕ → ActionStateMachine
new max_retries = record {
  max_retries = max_retries;
  retry_count = 0;
  state = observe;
  history = observe ∷ [];
}

unfoldable pub reset : ActionStateMachine → ActionStateMachine
reset m = record m { retry_count = 0; state = observe; history = observe ∷ [] }

unfoldable pub is_terminal_state : ActionState → Bool
is_terminal_state complete = true
is_terminal_state fail = true
is_terminal_state _ = false

unfoldable pub is_terminal : ActionStateMachine → Bool
unfolding is_terminal_state
is_terminal m = is_terminal_state m.state

-- `_transition`: staying put adds nothing to the history
unfoldable pub transition : ActionState → ActionStateMachine → ActionStateMachine
transition next_state m =
    ite (state_dec next_state m.state) m
      (record m { state = next_state; history = m.history ++ next_state ∷ [] })

unfoldable pub dispatch : ActionState → StepSignal → ActionStateMachine → ActionStateMachine
unfolding transition state_dec
dispatch complete g m = m
dispatch fail g m = m
dispatch observe g m = transition (if g.frame_ready then hypothesize else observe) m
dispatch hypothesize g m = transition (if g.intent_confident then ground_target else recover) m
dispatch ground_target g m = transition (if g.target_resolved then plan_motion else recover) m
dispatch plan_motion g m = transition (if g.motion_planned then execute else recover) m
dispatch execute g m = transition (if g.events_ack then verify else recover) m
dispatch verify g m = transition (if g.verify_ok then complete else recover) m
dispatch recover g m =
    if ltb m.retry_count m.max_retries
    then transition observe (record m { retry_count = m.retry_count + 1 })
    else transition fail m

-- `apply`: the new machine; the source returns its `state`
unfoldable pub apply : StepSignal → ActionStateMachine → ActionStateMachine
unfolding dispatch
apply g m = dispatch m.state g m

unfoldable pub run : List StepSignal → ActionStateMachine → ActionStateMachine
run [] m = m
run (g ∷ gs) m = run gs (apply g m)
