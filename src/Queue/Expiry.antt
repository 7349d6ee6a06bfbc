-- ===== src/Queue/Expiry.antt =====
-- `requeue_expired_leases` keeps the invariant, and never raises where it holds.
use project_mimic.Prelude.{
  length, count, if◌then◌else◌, Option-cases, text_dec, ok, ℕ, suc, ◌+◌, ◌≤◌, String, ◌≡◌, refl, ap,
  ◌∙◌, inl, inr, Bool, true, false, List, [], ◌∷◌, arith,
}
use project_mimic.Dict.{Dict, lookup, contains, IsUnique, lookup-erase}
use project_mimic.Queue.Types.{ActionJob, WorkerLease, Queue}
use project_mimic.Queue.{
  persist, unleased, settle, requeue_expired_leases, expired_leases, expire, expire_all,
}
use project_mimic.Queue.Leased.{settle-Inv, persist-Inv}
use project_mimic.Queue.Invariant.{one_if, Inv}

-- every id of the list has a lease, and stands in it once
abbrev pub AreLeased : List String → Queue → Type 0
AreLeased ks q = (j : String) → count text_dec j ks ≤ one_if (contains text_dec j q.leases)

leases-settle : (k : String) (job : ActionJob) (q : Queue) → (settle k job q).leases ≡ q.leases
unfolding settle
leases-settle k job q = ground arith

expire_step :
    (now : ℕ) (k : String) (ks : List String) (q : Queue)
    → Inv q
    → AreLeased (k ∷ ks) q
    → ((expire now k q).0 ≡ ok tt) × Inv (expire now k q).1 × AreLeased ks (expire now k q).1
expire_step now k ks q v a = elim (Option-cases (lookup text_dec k q.jobs)) [
  | inl e ↦ absurd (ground (arith, v.placed k, has_lease))
  | inr (job, e) ↦
      let job' = record (unleased job) { updated_at = now } in
      rw (e, expire)
        (
          refl,
          settle-Inv q v k job e has_lease job' refl refl refl,
          λ j.
              rw leases-settle
                (ground (arith, a j, a k, count_head, lookup-erase text_dec k j q.leases v.unique)),
        )
]
  where
    count_head : suc (count text_dec k ks) ≡ count text_dec k (k ∷ ks)
    count_head = ground arith

    has_lease : contains text_dec k q.leases ≡ true
    has_lease = ground (arith, a k)

-- Every expired lease is taken back; none of them is missing its job.
expire_all-Inv :
    (now n : ℕ) (ks : List String) (q : Queue)
    → Inv q
    → AreLeased ks q
    → ((expire_all now ks n q).0 ≡ ok (n + length ks)) × Inv (expire_all now ks n q).1
unfolding expire_all
expire_all-Inv now n [] q v a = (ap ok (omega arith), v)
expire_all-Inv now n (k ∷ ks) q v a =
    let (e, v', a') = expire_step now k ks q v a in
    let (counted, kept) = expire_all-Inv now (n + 1) ks (expire now k q).1 v' a' in
    rw (e, expire_all) (counted ∙ ap ok (omega arith), kept)

expired_leases-count :
    (now : ℕ) (j : String) (d : Dict String WorkerLease)
    → IsUnique text_dec d
    → count text_dec j (expired_leases now d) ≤ one_if (contains text_dec j d)
expired_leases-count now j [] u = omega arith
expired_leases-count now j ((k, l) ∷ d) u = ground (arith, expired_leases-count now j d u.1)

if-Inv : (b : Bool) {q : Queue} → Inv q → Inv (if b then persist q else q)
if-Inv true v = persist-Inv v
if-Inv false v = v

-- Taking back the expired leases never raises on a queue in order, returns how many there were and
-- leaves the queue in order.
pub requeue_expired_leases-Inv :
    (now : ℕ) (q : Queue)
    → Inv q
    → ((requeue_expired_leases now q).0 ≡ ok (length (expired_leases now q.leases)))
      × Inv (requeue_expired_leases now q).1
unfolding requeue_expired_leases
requeue_expired_leases-Inv now q v =
    let (e, v') =
      expire_all-Inv now 0 (expired_leases now q.leases) q v
        (λ j. expired_leases-count now j q.leases v.unique) in
    rw (e, requeue_expired_leases) (ap ok (omega arith), if-Inv _ v')
