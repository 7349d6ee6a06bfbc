-- ===== src/Lib.antt =====
-- Project Mimic: the orchestration core of the server.
--
-- A model of the Python package src/project_mimic, one module per part. Each operation is a
-- function that takes the object's state and returns its result and the new state, in the order in
-- which the source computes them: an exception is the `err` of a `Result`, beside the state that
-- the source has reached when it raises. What a method reads from outside is an argument: each
-- reading of the clock, and each id that `uuid4` draws. Times are whole numbers.
--
-- - Orchestrator: src/project_mimic/orchestrator. StateMachine is the machine of one action
--   (`ActionStateMachine`); RetryBudget the caps per state; Cycle `DecisionOrchestrator.run_cycle`,
--   which drives the machine under the budget and logs what it does; BehaviorTree the composite
--   nodes.
-- - Reliability: src/project_mimic/reliability.py. CircuitBreaker, Backoff (`BackoffPolicy`, with
--   `resolve_seed` of src/project_mimic/determinism.py) and Retry (`retry_with_backoff`, by
--   recursion on the rounds of its `for` loop).
-- - Queue: `InMemoryActionQueue` of src/project_mimic/queue_runtime.py. Queue.Types has the
--   dataclasses, Queue the store, restart and expiry, Queue.Operations the methods; the loop of
--   `lease_next` recurses on the ready list, which each round shortens. Queue.Invariant says where
--   a job's id has to be.
-- - Environment: `ProjectMimicEnv` of src/project_mimic/environment.py, with the action and
--   observation models of src/project_mimic/models.py.
-- - Session: `SessionRegistry` of src/project_mimic/session_lifecycle.py over its in-memory stores;
--   each record holds an Environment, and Session.Handlers has the step handler of
--   src/project_mimic/api.py, which couples the two, and the statuses that the application's
--   exception handlers give; Session.Listing is `list_sessions`.
-- - Governance: `GovernanceApprovalWorkflowService` of src/project_mimic/governance_approval.py.
-- - Flags: `FeatureFlagService` of src/project_mimic/feature_flags.py.
-- - Billing: `BillingPrimitives` of src/project_mimic/billing.py.
-- - Policy: `PolicyEngine` of src/project_mimic/policy.py.
-- - Regions: `MultiRegionControlPlaneService` of src/project_mimic/multi_region_control_plane.py;
--   Regions.Routes has its routing.
-- - Failover: `RegionalFailoverOrchestrator` of src/project_mimic/regional_failover.py over a control
--   plane of Regions. Failover has the policies, Failover.Changes what the operations write,
--   Failover.Operations the operations; Updates, Snapshots, Recovery and Cycle follow a failover from
--   the snapshots it takes to the recovery that writes them back, and Kept is about the policies that
--   `upsert_policy` writes.
-- - Usage: `TenantUsageMetering` of src/project_mimic/usage_metering.py.
-- - Residency: `TenantDataResidencyPolicyService` of src/project_mimic/data_residency.py.
-- - Models: `ModelRegistry` of src/project_mimic/model_registry.py.
-- - Autoscaling: `PredictiveAutoscalingService` of src/project_mimic/predictive_autoscaling.py, with
--   the signals and the recommendation in modules of their own.
-- - Reviews: `HumanReviewQueue` of src/project_mimic/review_queue.py.
--
-- Prelude has Python's `str.strip`, results and list operations; Dict is a `dict` as a list of
-- pairs in insertion order; Json is a JSON value. Tests has runs on small inputs.
--
-- Bounds: every loop of the source is a recursion on the list or the number of rounds that it goes
-- through. The one fuel is that of the digits of `str(n)`: n + 1, which
-- is more than their number.
--
-- Numbers: ratios, risk scores and delays are hundredths, weights, percentages and units steps of
-- 0.0001, queue depths and latencies steps of 0.000001, and durations natural numbers; sums and
-- quotients are exact until they are rounded, so nothing is said of floating-point rounding.
-- Parameters stand for pydantic's whitespace trimming (`trim`), `str.lower`,
-- `random.Random.uniform` and SHA-256. `sorted` is a stable sort by a test (Prelude.Sort), a
-- parameter where only its result's members matter.
--
-- Not modelled: the HTTP layer beyond the session handlers, the file and Redis stores, tracing and
-- metrics, the browser worker, the native planner, the sorted listings of most services, and the
-- services beside those above.
pub mod Prelude
pub mod Dict
pub mod Orchestrator
pub mod Reliability
pub mod Json
pub mod Queue
pub mod Environment
pub mod Session
pub mod Governance
pub mod Flags
pub mod Billing
pub mod Reviews
pub mod Policy
pub mod Regions
pub mod Failover
pub mod Usage
pub mod Residency
pub mod Autoscaling
pub mod Models
mod Tests
