-- ===== src/Reliability/CircuitBreaker.antt =====
-- `CircuitBreaker` of src/project_mimic/reliability.py. The clock reading of a call is an argument,
-- in whole ticks of the clock.
pub mod Laws
use project_mimic.Prelude.{
  length, length-append, replicate, keep, any, take, All, count, member, without, remove,
  count-append, count-without, count-remove_ne, count-remove_self, member-count, not-member-count,
  ltb, leb, ◌==◌, if◌then◌else◌, is_some, Bool-cases, Option-cases, ltb→lt, leb→le, le→leb, lt→ltb,
  text_dec, strip, is_empty, strip-strip, Exception, value_error, key_error, runtime_error,
  session_expired, invalid_transition, access_denied, checkpoint_recovery, Result, ok, err, Action,
  pure, raise, lift, gets, or_raise, raise_if, modify, ◌>>=◌, ◌>>◌, ℕ, zero, suc, ◌+◌, ◌-◌, ◌*◌,
  ◌/◌, ◌%◌, ◌^◌, ◌≤◌, ◌<◌, min, max, String, ◌≡◌, refl, sym, ap, ◌∙◌, subst, ◌≢◌, ◌↔◌, ◌⊎◌, inl,
  inr, ite, Bool, true, false, not, ◌&&◌, ◌||◌, Option, none, some, List, [], ◌∷◌, ◌++◌, map, arith,
  ℕ_discrete,
}

pub data CircuitState : Type 0 where
  closed open_circuit half_open : CircuitState

pub record CircuitBreakerConfig : Type 0 where
  pub failure_threshold : ℕ
  pub recovery_timeout : ℕ

pub record CircuitBreaker : Type 0 where
  pub config : CircuitBreakerConfig
  pub state : CircuitState
  pub failure_count : ℕ
  pub opened_at : Option ℕ

unfoldable pub new : CircuitBreakerConfig → CircuitBreaker
new config = record { config = config; state = closed; failure_count = 0; opened_at = none }

-- `opened_at is not None and now - opened_at >= recovery_timeout_seconds`
abbrev pub cooled_down : CircuitBreakerConfig → Option ℕ → ℕ → Bool
cooled_down config none now = false
cooled_down config (some opened_at) now = leb (opened_at + config.recovery_timeout) now

allow_in : CircuitState → ℕ → CircuitBreaker → Bool × CircuitBreaker
allow_in closed now b = (true, b)
allow_in open_circuit now b =
    if cooled_down b.config b.opened_at now
    then (true, record b { state = half_open })
    else (false, b)
allow_in half_open now b = (true, b)

unfoldable pub allow_request : ℕ → CircuitBreaker → Bool × CircuitBreaker
unfolding allow_in
allow_request now b = allow_in b.state now b

unfoldable pub record_success : CircuitBreaker → CircuitBreaker
record_success b = record b { state = closed; failure_count = 0; opened_at = none }

count_failure : ℕ → CircuitBreaker → CircuitBreaker
count_failure now b =
    let b' = record b { failure_count = b.failure_count + 1 } in
    if leb b.config.failure_threshold b'.failure_count
    then record b' { state = open_circuit; opened_at = some now }
    else b'

failure_in : CircuitState → ℕ → CircuitBreaker → CircuitBreaker
unfolding count_failure
failure_in half_open now b = record b {
  state = open_circuit;
  failure_count = b.config.failure_threshold;
  opened_at = some now;
}
failure_in closed now b = count_failure now b
failure_in open_circuit now b = count_failure now b

unfoldable pub record_failure : ℕ → CircuitBreaker → CircuitBreaker
unfolding failure_in
record_failure now b = failure_in b.state now b
