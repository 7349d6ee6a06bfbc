-- ===== src/Reviews/Decisions.antt =====
-- A decision on a review is final.
use project_mimic.Prelude.{
  Option-cases, text_dec, strip, value_error, Result, ok, err, ℕ, String, ◌≡◌, refl, ap, ◌∙◌, subst,
  inl, inr, true, false, Option, some, arith,
}
use project_mimic.Dict.{lookup, lookup-insert}
use project_mimic.Reviews.{
  ReviewStatus, ReviewItem, ReviewQueue, store_item, decided, resolve, is_waiting,
}

decided-is_waiting : (s : String) (d : ReviewStatus) → decided s ≡ some d → is_waiting d ≡ false
unfolding decided
decided-is_waiting s d e = ground arith

resolve_of_settled :
    (lower : String → String) (k decision : String) (remark : Option String) (now : ℕ)
    (q : ReviewQueue) (r : ReviewItem)
    → lookup text_dec k q.items ≡ some r
    → is_waiting r.status ≡ false
    → resolve lower k decision remark now q
      ≡ (err (value_error "review item is already resolved"), q)
unfolding resolve
resolve_of_settled lower k decision remark now q r found settled = rw (found, settled, resolve) refl

-- the item after a decision
abbrev settle : ReviewStatus → Option String → ℕ → ReviewItem → ReviewItem
settle d remark now r = record r {
  status = d;
  resolution = some d;
  resolution_note = remark;
  resolved_at = some now;
}

resolve_of_pending :
    (lower : String → String) (k decision : String) (remark : Option String) (now : ℕ)
    (q : ReviewQueue) (s : ReviewItem) (d : ReviewStatus)
    → lookup text_dec k q.items ≡ some s
    → is_waiting s.status ≡ true
    → decided (lower (strip decision)) ≡ some d
    → resolve lower k decision remark now q
      ≡ (ok (settle d remark now s), store_item k (settle d remark now s) q)
unfolding resolve
resolve_of_pending lower k decision remark now q s d found waits f =
    rw (found, waits, f, resolve) refl

resolved :
    (lower : String → String) (k decision : String) (remark : Option String) (now : ℕ)
    (q : ReviewQueue) (r : ReviewItem)
    → (resolve lower k decision remark now q).0 ≡ ok r
    → (s : ReviewItem) × (d : ReviewStatus) × (lookup text_dec k q.items ≡ some s)
      × (is_waiting s.status ≡ true)
      × (decided (lower (strip decision)) ≡ some d)
unfolding resolve
resolved lower k decision remark now q r e = elim (Option-cases (lookup text_dec k q.items)) [
  | inl missing ↦ absurd (ground arith)
  | inr (s, found) ↦ elim (Option-cases (decided (lower (strip decision)))) [
    | inl undecided ↦ absurd (ground arith)
    | inr (d, f) ↦ (s, d, found, ground arith, f)
  ]
]

-- After a call of `resolve` that returns, the stored item is the one returned, with the resolution
-- that its status names, and any further `resolve` of it raises and changes nothing.
pub resolve_again :
    (lower : String → String) (k decision decision' : String) (remark remark' : Option String)
    (now now' : ℕ) (q : ReviewQueue) (r : ReviewItem)
    → (resolve lower k decision remark now q).0 ≡ ok r
    → let q' = (resolve lower k decision remark now q).1 in
      (lookup text_dec k q'.items ≡ some r)
      × (r.resolution ≡ some r.status)
      × (resolve lower k decision' remark' now' q'
          ≡ (err (value_error "review item is already resolved"), q'))
resolve_again lower k decision decision' remark remark' now now' q r e =
    let inv = resolved lower k decision remark now q r e in
    let (s, d, found, waits, f) = inv in
    let w = decided-is_waiting (lower (strip decision)) d f in
    let r' = settle d remark now s in
    let li = lookup-insert text_dec k k r' q.items in
    let there : lookup text_dec k (store_item k r' q).items ≡ some r' = ground (arith, li) in
    let ran = resolve_of_pending lower k decision remark now q s d found waits f in
    let again = resolve_of_settled lower k decision' remark' now' (store_item k r' q) r' there w in
    let same : r' ≡ r = ground (arith, ap (λ (x : Result ReviewItem × ReviewQueue). x.0) ran) in
    rw ran (
      there ∙ ap (λ (x : ReviewItem). some x) same,
      subst (λ (x : ReviewItem). x.resolution ≡ some x.status) same refl,
      again,
    )
