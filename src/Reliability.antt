-- ===== src/Reliability.antt =====
-- src/project_mimic/reliability.py and determinism.py.
pub mod CircuitBreaker
pub mod Backoff
pub mod Retry
