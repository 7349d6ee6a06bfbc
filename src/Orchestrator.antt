-- ===== src/Orchestrator.antt =====
-- src/project_mimic/orchestrator: the action state machine, the retry budget and the cycle.
pub mod StateMachine
pub mod RetryBudget
pub mod Cycle
pub mod BehaviorTree
