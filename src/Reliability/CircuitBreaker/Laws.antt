-- ===== src/Reliability/CircuitBreaker/Laws.antt =====
-- The circuit breaker over every history of calls.
use project_mimic.Prelude.{
  length, leb, if◌then◌else◌, ℕ, ◌+◌, ◌≤◌, ◌<◌, ◌≡◌, refl, ap, ◌≢◌, ◌↔◌, ◌⊎◌, inl, true, false,
  none, List, [], ◌∷◌, arith,
}
use project_mimic.Reliability.CircuitBreaker.{
  closed, open_circuit, half_open, CircuitBreakerConfig, CircuitBreaker, new, allow_request,
  record_success, record_failure,
}

pub data Call : Type 0 where
  allows fails : ℕ → Call
  succeeds : Call

abbrev pub step : Call → CircuitBreaker → CircuitBreaker
step (allows now) b = (allow_request now b).1
step (fails now) b = record_failure now b
step succeeds b = record_success b

abbrev pub run : List Call → CircuitBreaker → CircuitBreaker
run [] b = b
run (c ∷ cs) b = run cs (step c b)

-- A breaker is closed exactly while it has no opening time, and stays closed only below the
-- threshold; an open or half-open one has counted at least the threshold.
pub record IsConsistent (b : CircuitBreaker) : Type 0 where
  pub opened : (b.state ≡ closed) ↔ (b.opened_at ≡ none)
  pub below :
      b.state ≡ closed → (b.failure_count ≡ 0) ⊎ (b.failure_count < b.config.failure_threshold)
  pub reached : b.state ≢ closed → b.config.failure_threshold ≤ b.failure_count

step-IsConsistent : (c : Call) (b : CircuitBreaker) → IsConsistent b → IsConsistent (step c b)
unfolding allow_request record_failure record_success
step-IsConsistent (allows now) b h = ground (arith, h.opened, h.below, h.reached)
step-IsConsistent (fails now) b h = ground (arith, h.opened, h.below, h.reached)
step-IsConsistent succeeds b h = ground (arith, h.opened, h.below, h.reached)

-- Every history of calls leaves a new breaker consistent.
pub run-IsConsistent :
    (cs : List Call) (b : CircuitBreaker) → IsConsistent b → IsConsistent (run cs b)
run-IsConsistent [] b h = h
run-IsConsistent (c ∷ cs) b h = run-IsConsistent cs (step c b) (step-IsConsistent c b h)

pub new-IsConsistent : (config : CircuitBreakerConfig) → IsConsistent (new config)
unfolding new
new-IsConsistent config = record {
  opened = (λ e. refl, λ e. refl);
  below = λ e. inl refl;
  reached = λ n. absurd (n refl);
}

-- failures at the given times, with nothing between them
abbrev pub failures : List ℕ → CircuitBreaker → CircuitBreaker
failures [] b = b
failures (t ∷ ts) b = failures ts (record_failure t b)

-- A failure that opens a consistent breaker at time t refuses every request before t + timeout without
-- changing anything, and lets the first one from then on through as a probe.
open-allow_request :
    (t now : ℕ) (b : CircuitBreaker)
    → IsConsistent b
    → (record_failure t b).state ≡ open_circuit
    → allow_request now (record_failure t b) ≡ (
        if leb (t + b.config.recovery_timeout) now
        then (true, record (record_failure t b) { state = half_open })
        else (false, record_failure t b))
unfolding allow_request record_failure
open-allow_request t now b c h = ground (arith, c.reached)

-- the state is `open_circuit` exactly from the threshold on
record Counts (b : CircuitBreaker) : Type 0 where
  not_half_open : b.state ≢ half_open
  opened : (b.state ≡ open_circuit) ↔ (b.config.failure_threshold ≤ b.failure_count)

record_failure-Counts :
    (t : ℕ) (b : CircuitBreaker)
    → b.state ≢ half_open
    → (b.state ≡ open_circuit → b.config.failure_threshold ≤ b.failure_count)
    → Counts (record_failure t b)
      × ((record_failure t b).failure_count ≡ b.failure_count + 1)
      × ((record_failure t b).config ≡ b.config)
unfolding record_failure
record_failure-Counts t b n h = ground arith

failures_from :
    (ts : List ℕ) (b : CircuitBreaker)
    → Counts b
    → ((failures ts b).state ≡ open_circuit)
      ↔ (b.config.failure_threshold ≤ b.failure_count + length ts)
failures_from [] b h = (λ e. omega (arith, h.opened.0 e), λ l. h.opened.1 (omega arith))
failures_from (t ∷ ts) b h =
    let (h', more, same) = record_failure-Counts t b h.not_half_open h.opened.0 in
    let (rest_open, rest_reached) = failures_from ts (record_failure t b) h' in
    let limit = ap (λ (c : CircuitBreakerConfig). c.failure_threshold) same in
    (λ e. omega (arith, rest_open e, limit, more), λ l. rest_reached (omega (arith, limit, more)))

-- A new breaker is open after some failures in a row exactly when they are as many as the
-- threshold.
failures-open :
    (t : ℕ) (ts : List ℕ) (config : CircuitBreakerConfig)
    → ((failures (t ∷ ts) (new config)).state ≡ open_circuit)
      ↔ (config.failure_threshold ≤ length (t ∷ ts))
unfolding new
failures-open t ts config =
    let (h, more, same) = record_failure-Counts t (new config) (λ e. cc) (λ e. cc) in
    let (rest_open, rest_reached) = failures_from ts (record_failure t (new config)) h in
    let limit = ap (λ (c : CircuitBreakerConfig). c.failure_threshold) same in
    (λ e. omega (arith, rest_open e, limit, more), λ l. rest_reached (omega (arith, limit, more)))
