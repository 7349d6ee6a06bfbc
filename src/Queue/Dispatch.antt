-- ===== src/Queue/Dispatch.antt =====
-- `dispatch`: it keeps the invariant, and a key that is known gives the job that it was given
-- first.
use project_mimic.Prelude.{
  member, count-append, Bool-cases, Option-cases, text_dec, strip, is_empty, ok, ℕ, ◌+◌, ◌<◌,
  String, ◌≡◌, refl, ◌∙◌, inl, inr, false, none, some, List, [], ◌∷◌, ◌++◌, arith,
}
use project_mimic.Dict.{
  Dict, lookup, insert, erase, IsUnique, lookup-insert, lookup-erase_ne, insert-IsUnique,
  erase-IsUnique,
}
use project_mimic.Json.{JsonFields}
use project_mimic.Queue.Types.{status_dec, ActionJob, Queue}
use project_mimic.Queue.{persist, cleanup, expired_keys, erase_all}
use project_mimic.Queue.Operations.{dispatch, create, new_job}
use project_mimic.Queue.Invariant.{Inv, move-IsPlaced}

lookup-erase_all :
    {V : Type 0} (k : String) (ks : List String) (d : Dict String V)
    → member text_dec k ks ≡ false
    → lookup text_dec k (erase_all ks d) ≡ lookup text_dec k d
lookup-erase_all k [] d h = refl
lookup-erase_all k (x ∷ ks) d h =
    lookup-erase_all k ks (erase text_dec x d) (ground arith)
    ∙ lookup-erase_ne text_dec x k d (ground arith)

erase_all-IsUnique :
    {V : Type 0} (ks : List String) (d : Dict String V)
    → IsUnique text_dec d
    → IsUnique text_dec (erase_all ks d)
erase_all-IsUnique [] d u = u
erase_all-IsUnique (x ∷ ks) d u =
    erase_all-IsUnique ks (erase text_dec x d) (erase-IsUnique text_dec x d u)

fresh_key :
    (now : ℕ) (k : String) (d : Dict String ℕ)
    → lookup text_dec k d ≡ none
    → member text_dec k (expired_keys now d) ≡ false
fresh_key now k [] h = refl
fresh_key now k ((j, e) ∷ d) h = ground (arith, fresh_key now k d)

live_key :
    (now expires_at : ℕ) (k : String) (d : Dict String ℕ)
    → IsUnique text_dec d
    → lookup text_dec k d ≡ some expires_at
    → now < expires_at
    → member text_dec k (expired_keys now d) ≡ false
live_key now expires_at k [] u h l = cc
live_key now expires_at k ((j, e) ∷ d) u h l =
    ground (arith, live_key now expires_at k d u.1, fresh_key now k d)

module _ (trim : String → String) where
  abbrev pub cleaned : ℕ → Queue → Queue
  cleaned now q = record q { tables = cleanup now q.tables }

  dispatch_cases :
      (P : Queue → Type 0) (payload : JsonFields) (key : String) (now later : ℕ) (fresh : String)
      (q : Queue)
      → P q
      → P (cleaned now q)
      → P (create trim payload (strip key) later fresh (cleaned now q)).1
      → P (dispatch trim payload key now later fresh q).1
  unfolding dispatch
  dispatch_cases P payload key now later fresh q same kept made =
      elim (Bool-cases (is_empty (strip key))) [
        | inl blank ↦ rw (dispatch, blank) same
        | inr text ↦
            elim (Option-cases (lookup text_dec (strip key) (cleanup now q.tables).idempotency)) [
              | inl e ↦ rw (dispatch, text, e) made
              | inr (existing, e) ↦ elim (Bool-cases (is_empty existing)) [
                | inl falsy ↦ rw (dispatch, text, e, falsy) made
                | inr truthy ↦
                    rw (dispatch, text, e, truthy)
                      (elim (Option-cases (lookup text_dec existing (cleanup now q.tables).jobs)) [
                        | inl missing ↦ rw missing kept
                        | inr (job, found) ↦ rw found kept
                      ])
              ]
            ]
      ]

  cleaned-Inv : (now : ℕ) (q : Queue) → Inv q → Inv (cleaned now q)
  unfolding cleanup
  cleaned-Inv now q v = record {
    unique = v.unique;
    placed = λ j. record {
      in_ready = (v.placed j).in_ready;
      in_dead = (v.placed j).in_dead;
      in_leases = (v.placed j).in_leases;
      fits = (v.placed j).fits;
    };
  }

  jobs-cleaned : (now : ℕ) (q : Queue) → (cleaned now q).jobs ≡ q.jobs
  unfolding cleanup
  jobs-cleaned now q = refl

  create-Inv :
      (payload : JsonFields) (key : String) (now : ℕ) (fresh : String) (q : Queue)
      → lookup text_dec (trim fresh) q.jobs ≡ none
      → Inv q
      → Inv (create trim payload key now fresh q).1
  unfolding create persist status_dec
  create-Inv payload key now fresh q new v =
      let k = trim fresh in
      record {
        unique = v.unique;
        placed = λ j.
            let p =
              move-IsPlaced q.tables k j (new_job trim payload key now fresh) (q.ready ++ k ∷ [])
                q.dead_letters q.leases (refl, omega arith, omega arith, λ e. omega arith)
                (ground (arith, v.placed j, v.placed k, count-append text_dec j q.ready (k ∷ [])))
                (ground (arith, v.placed j, v.placed k)) (ground (arith, v.placed j, v.placed k))
                (v.placed j) in
            record {
              in_ready = p.in_ready;
              in_dead = p.in_dead;
              in_leases = p.in_leases;
              fits = p.fits;
            };
      }

  -- With an id that no job has, `dispatch` keeps the queue in order.
  pub dispatch-Inv :
      (payload : JsonFields) (key : String) (now later : ℕ) (fresh : String) (q : Queue)
      → lookup text_dec (trim fresh) q.jobs ≡ none
      → Inv q
      → Inv (dispatch trim payload key now later fresh q).1
  dispatch-Inv payload key now later fresh q new v =
      dispatch_cases Inv payload key now later fresh q v (cleaned-Inv now q v) (
        create-Inv payload (strip key) later fresh (cleaned now q) (rw jobs-cleaned new)
          (cleaned-Inv now q v))

  dispatch_of_known :
      (payload : JsonFields) (key : String) (now later : ℕ) (fresh : String) (q : Queue)
      (existing : String) (job : ActionJob)
      → is_empty (strip key) ≡ false
      → lookup text_dec (strip key) (cleanup now q.tables).idempotency ≡ some existing
      → is_empty existing ≡ false
      → lookup text_dec existing (cleaned now q).jobs ≡ some job
      → dispatch trim payload key now later fresh q ≡ (ok job, cleaned now q)
  unfolding dispatch
  dispatch_of_known payload key now later fresh q existing job text e full found =
      rw (dispatch, text, e, full, found)

  module _ (payload : JsonFields) (key : String) (now later : ℕ) (fresh : String) (q : Queue)
      (text : is_empty (strip key) ≡ false)
      (unknown : lookup text_dec (strip key) (cleanup now q.tables).idempotency ≡ none) where
    abbrev made : Queue
    made = (create trim payload (strip key) later fresh (cleaned now q)).1

    dispatch_creates :
        dispatch trim payload key now later fresh q
        ≡ (ok (new_job trim payload (strip key) later fresh), made)
    unfolding dispatch create
    dispatch_creates = rw (dispatch, text, unknown)

    made_job :
        lookup text_dec (trim fresh) made.jobs ≡ some (new_job trim payload (strip key) later fresh)
    unfolding create persist
    made_job = ground (
      arith,
      lookup-insert text_dec (trim fresh) (trim fresh)
          (new_job trim payload (strip key) later fresh) (cleaned now q).jobs,
    )

    made_key :
        (now' : ℕ)
        → IsUnique text_dec q.idempotency_expires
        → now' < later + q.idempotency_ttl
        → lookup text_dec (strip key) (cleanup now' made.tables).idempotency ≡ some (trim fresh)
    unfolding create persist cleanup
    made_key now' u lt =
        let ks = expired_keys now q.idempotency_expires in
        let d = erase_all ks q.idempotency_expires in
        let k = strip key in
        let e = later + q.idempotency_ttl in
        lookup-erase_all k (expired_keys now' (insert text_dec k e d)) _ (
          live_key now' e k (insert text_dec k e d)
            (insert-IsUnique text_dec k e d (erase_all-IsUnique ks q.idempotency_expires u))
            (ground (arith, lookup-insert text_dec k k e d)) lt)
        ∙ ground (arith, lookup-insert text_dec k k (trim fresh) (erase_all ks q.idempotency))

    -- After a dispatch that made a job, a dispatch with the same key before the key expires returns
    -- that job, whatever its payload, and changes nothing but to drop expired keys.
    pub dispatch_again :
        (payload' : JsonFields) (key' : String) (now' later' : ℕ) (fresh' : String)
        → strip key' ≡ strip key
        → is_empty (trim fresh) ≡ false
        → IsUnique text_dec q.idempotency_expires
        → now' < later + q.idempotency_ttl
        → let q' = (dispatch trim payload key now later fresh q).1 in
          dispatch trim payload' key' now' later' fresh' q'
          ≡ ((dispatch trim payload key now later fresh q).0, cleaned now' q')
    dispatch_again payload' key' now' later' fresh' same full u lt = rw dispatch_creates (
        dispatch_of_known payload' key' now' later' fresh' made (trim fresh) _ (rw same text)
          (rw same (made_key now' u lt)) full (rw jobs-cleaned made_job))
