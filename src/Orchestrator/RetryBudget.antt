-- ===== src/Orchestrator/RetryBudget.antt =====
-- src/project_mimic/orchestrator/retry_budget.py: caps on how often each state may be run.
use project_mimic.Prelude.{
  ℕ, ◌+◌, ◌≤◌, ◌≡◌, Bool, true, false, Option, none, some, [], arith, ite, leb, if◌then◌else◌,
}
use project_mimic.Dict.{Dict, lookup, insert, lookup-insert}
use project_mimic.Orchestrator.StateMachine.{ActionState, state_dec}

pub record RetryBudgetManager : Type 0 where
  pub per_state_caps : Dict ActionState ℕ
  pub usage : Dict ActionState ℕ

-- `self.usage.get(state, 0)`
abbrev pub or_zero : Option ℕ → ℕ
or_zero none = 0
or_zero (some n) = n

abbrev pub used : ActionState → RetryBudgetManager → ℕ
used s b = or_zero (lookup state_dec s b.usage)

unfoldable pub consume : ActionState → RetryBudgetManager → Bool × RetryBudgetManager
consume s b = elim (lookup state_dec s b.per_state_caps) [
  | none ↦ (true, b)
  | some cap ↦
      if leb cap (used s b)
      then (false, b)
      else (true, record b { usage = insert state_dec s (used s b + 1) b.usage })
]

unfoldable pub reset_budget : RetryBudgetManager → RetryBudgetManager
reset_budget b = record b { usage = [] }

-- A state with a cap is granted exactly while its uses are below the cap, each grant is one use,
-- and no other state's uses change.
consume_lem :
    (s j : ActionState) (cap : ℕ) (b : RetryBudgetManager)
    → lookup state_dec s b.per_state_caps ≡ some cap
    → ((consume s b).0 ≡ (if leb cap (used s b) then false else true))
      × (used j (consume s b).1
          ≡ ite (state_dec s j) (if leb cap (used s b) then used s b else used s b + 1) (used j b))
unfolding consume
consume_lem s j cap b e = ground (arith, lookup-insert state_dec s j (used s b + 1) b.usage)

pub caps-consume :
    (s : ActionState) (b : RetryBudgetManager) → (consume s b).1.per_state_caps ≡ b.per_state_caps
unfolding consume
caps-consume s b = ground arith

-- No sequence of requests uses a state more often than its cap allows.
consume-le-cap :
    (s j : ActionState) (cap : ℕ) (b : RetryBudgetManager)
    → lookup state_dec j b.per_state_caps ≡ some cap
    → used j b ≤ cap
    → used j (consume s b).1 ≤ cap
unfolding consume
consume-le-cap s j cap b e h = ground (arith, lookup-insert state_dec s j (used s b + 1) b.usage)
