-- ===== src/Reliability/Retry.antt =====
-- `retry_with_backoff` of src/project_mimic/reliability.py. The delay of each attempt is a parameter,
-- and so are the outcomes of the operation, by the number of the attempt.
use native.Mathlib.Nat.{add-zero, zero-add}
use project_mimic.Prelude.{
  length, leb, if◌then◌else◌, ℕ, zero, suc, ◌+◌, ◌≤◌, ◌<◌, ◌≡◌, refl, sym, subst, ◌⊎◌, inl, inr,
  Bool, true, false, not, ◌||◌, Option, none, some, List, [], ◌∷◌, arith,
}

-- what a call of `operation` does: it returns a value or raises an error
pub data Outcome (A E : Type 0) : Type 0 where
  returned : A → Outcome A E
  raised : E → Outcome A E

-- how `retry_with_backoff` ends: as the operation did, or by its own RuntimeError
pub data Ending (A E : Type 0) : Type 0 where
  value : A → Ending A E
  reraised : E → Ending A E
  without_error : Ending A E

-- `on_retry(attempt + 1, delay, exc)`
pub record Retry (E : Type 0) : Type 0 where
  pub next_attempt : ℕ
  pub delay : ℕ
  pub error : E

pub record Trace (A E : Type 0) : Type 0 where
  pub ending : Ending A E
  pub calls : ℕ
  pub retries : List (Retry E)

Outcome-cases :
    {A E : Type 0} (o : Outcome A E) → ((a : A) × (o ≡ returned a)) ⊎ ((e : E) × (o ≡ raised e))
Outcome-cases (returned a) = inl (a, refl)
Outcome-cases (raised e) = inr (e, refl)

-- `operation k` is the outcome of the call for attempt k, and `delay k` the delay computed for it.
module _ {A E : Type 0} (operation : ℕ → Outcome A E) (is_transient : E → Bool)
    (delay : ℕ → ℕ) where
  abbrev again : ℕ → E → Trace A E → Trace A E
  again attempt e t = record t {
    calls = suc t.calls;
    retries = record { next_attempt = attempt + 1; delay = delay attempt; error = e } ∷ t.retries;
  }

  abbrev stop : Ending A E → Trace A E
  stop ending = record { ending = ending; calls = 1; retries = [] }

  abbrev after_loop : Option E → Ending A E
  after_loop none = without_error
  after_loop (some e) = reraised e

  -- the loop over `range(policy.max_attempts)`, with the rounds that are left
  loop : ℕ → ℕ → ℕ → Option E → Trace A E
  loop max_attempts zero attempt last_error = record {
    ending = after_loop last_error;
    calls = 0;
    retries = [];
  }
  loop max_attempts (suc rounds) attempt last_error = elim (operation attempt) [
    | returned a ↦ stop (value a)
    | raised e ↦
        let rest = loop max_attempts rounds (attempt + 1) (some e) in
        if not (is_transient e) || leb max_attempts (attempt + 1)
        then stop (reraised e)
        else again attempt e rest
  ]

  pub retry_with_backoff : ℕ → Trace A E
  unfolding loop
  retry_with_backoff max_attempts = loop max_attempts max_attempts 0 none

  -- whether the call of an attempt asks for another one
  abbrev pub is_retried : ℕ → Bool
  is_retried k = elim (operation k) [ returned a ↦ false | raised e ↦ is_transient e ]

  abbrev pub ending_of : ℕ → Ending A E
  ending_of k = elim (operation k) [ returned a ↦ value a | raised e ↦ reraised e ]

  abbrev pub EndsAt : ℕ → ℕ → Trace A E → Type 0
  EndsAt attempt k t =
      (t.ending ≡ ending_of (attempt + k)) × (t.calls ≡ suc k) × (length t.retries ≡ k)

  loop_stops :
      (n rounds attempt : ℕ) (last : Option E)
      → (is_retried attempt ≡ false) ⊎ (n ≤ attempt + 1)
      → EndsAt attempt 0 (loop n (suc rounds) attempt last)
  unfolding loop
  loop_stops n rounds attempt last h = rw (add-zero attempt) (ground arith)

  loop_goes_on :
      (n rounds attempt k : ℕ) (last : Option E)
      → is_retried attempt ≡ true
      → attempt + 1 < n
      → ((l : Option E) → EndsAt (attempt + 1) k (loop n rounds (attempt + 1) l))
      → EndsAt attempt (suc k) (loop n (suc rounds) attempt last)
  unfolding loop
  loop_goes_on n rounds attempt k last h lt ih = elim (Outcome-cases (operation attempt)) [
    | inl (a, e) ↦ ground arith
    | inr (x, e) ↦ ground (arith, ih (some x), shift attempt k)
  ]
    where
      shift : (a k : ℕ) → a + suc k ≡ a + 1 + k
      shift a k = omega arith

  loop-EndsAt :
      (n k rounds attempt : ℕ) (last : Option E)
      → attempt + rounds ≡ n
      → k < rounds
      → ((j : ℕ) → j < k → is_retried (attempt + j) ≡ true)
      → (is_retried (attempt + k) ≡ false) ⊎ (suc (attempt + k) ≡ n)
      → EndsAt attempt k (loop n rounds attempt last)
  loop-EndsAt n k zero attempt last e lt h f = absurd (omega arith)
  loop-EndsAt n zero (suc rounds) attempt last e lt h f =
      loop_stops n rounds attempt last (rw (add-zero attempt) at (first f))
    where
      first :
          (is_retried (attempt + 0) ≡ false) ⊎ (suc (attempt + 0) ≡ n)
          → (is_retried (attempt + 0) ≡ false) ⊎ (n ≤ attempt + 0 + 1)
      first (inl p) = inl p
      first (inr p) = inr (omega arith)
  loop-EndsAt n (suc k) (suc rounds) attempt last e lt h f =
      loop_goes_on n rounds attempt k last (rw (add-zero attempt) at (h 0 (omega arith)))
        (omega arith)
        λ l.
          loop-EndsAt n k rounds (attempt + 1) l (omega arith) (omega arith)
            (λ j p. rw (shift j) at (h (suc j) (omega arith))) (rw (shift k) at f)
    where
      shift : (j : ℕ) → attempt + suc j ≡ attempt + 1 + j
      shift j = omega arith

  -- If attempt k is the first that returns or raises an error that is not transient, or is the
  -- last one allowed, then the operation is called k + 1 times, `on_retry` k times, and the caller
  -- gets what attempt k returned or raised.
  pub retry_with_backoff_lem :
      (max_attempts k : ℕ)
      → k < max_attempts
      → ((j : ℕ) → j < k → is_retried j ≡ true)
      → (is_retried k ≡ false) ⊎ (suc k ≡ max_attempts)
      → ((retry_with_backoff max_attempts).ending ≡ ending_of k)
        × ((retry_with_backoff max_attempts).calls ≡ suc k)
        × (length (retry_with_backoff max_attempts).retries ≡ k)
  unfolding retry_with_backoff
  retry_with_backoff_lem n k lt h f =
      subst (λ (j : ℕ). EndsAt' j n k) (zero-add k)
        (loop-EndsAt n k n 0 none (zero-add n) lt
          (λ j p. subst (λ (i : ℕ). is_retried i ≡ true) (sym (zero-add j)) (h j p))
          (subst (λ (i : ℕ). (is_retried i ≡ false) ⊎ (suc i ≡ n)) (sym (zero-add k)) f))
    where
      EndsAt' : ℕ → ℕ → ℕ → Type 0
      EndsAt' j n k =
          ((loop n n 0 none).ending ≡ ending_of j)
          × ((loop n n 0 none).calls ≡ suc k)
          × (length (loop n n 0 none).retries ≡ k)
