-- ===== src/Governance/Separation.antt =====
-- Separation of duties: who has approved or rejected a request, in every history of calls.
use project_mimic.Prelude.{
  Result-cases, length, length-append, count, not-member-count, text_dec, strip, ok, ℕ, ◌+◌, ◌≤◌,
  ◌<◌, String, ◌≡◌, refl, ap, subst, ◌≢◌, inl, inr, ite, Option, none, some, List, [], ◌∷◌, ◌++◌,
  arith,
}
use project_mimic.Dict.{Dict, lookup, lookup-insert}
use project_mimic.Json.{ℤ}
use project_mimic.Governance.{
  pending, approved, rejected, ReviewEvent, ApprovalRequest, Governance, actors, store, new_request,
  submit_request, owned_request, approved_by, approve_request, rejected_by, reject_request, note_of,
}

-- how often an actor stands among the reviews of a request
abbrev pub reviews : String → ApprovalRequest → ℕ
reviews a r = count text_dec a (actors r.approvals) + count text_dec a (actors r.rejections)

-- The submitter has not reviewed the request, each actor has reviewed it at most once, and the
-- status agrees with the reviews.
pub record IsSound (r : ApprovalRequest) : Type 0 where
  pub not_own : reviews r.submitted_by r ≡ 0
  pub once : (a : String) → reviews a r ≤ 1
  pub enough : r.status ≡ approved → r.required_approvals ≤ length r.approvals
  pub too_few : r.status ≡ pending → length r.approvals < r.required_approvals
  pub refused : r.status ≢ rejected → r.rejections ≡ []

actors-append : (es fs : List ReviewEvent) → actors (es ++ fs) ≡ actors es ++ actors fs
actors-append [] fs = refl
actors-append (e ∷ es) fs = ap (λ (l : List String). e.actor ∷ l) (actors-append es fs)

-- adding one review
count-added :
    (a b : String) (note : String) (t : ℕ) (es : List ReviewEvent)
    → count text_dec a (actors (es ++ record { actor = b; note = note; timestamp = t } ∷ []))
      ≡ count text_dec a (actors es) + ite (text_dec b a) 1 0
count-added a b note t [] = ground arith
count-added a b note t (e ∷ es) = ground (arith, count-added a b note t es)

-- every request of the store is sound
AllSound : Governance → Type 0
AllSound g = (k : String) (r : ApprovalRequest) → lookup text_dec k g.requests ≡ some r → IsSound r

store-AllSound :
    (r : ApprovalRequest) (g : Governance) → IsSound r → AllSound g → AllSound (store r g)
unfolding AllSound
store-AllSound r g s all k r1 found =
    let li = lookup-insert text_dec r.request_id k r g.requests in
    elim (text_dec r.request_id k) [
      | yes e ↦ let same : r ≡ r1 = ground (arith, li) in subst IsSound same s
      | no ne ↦ all k r1 (ground (arith, li))
    ]

module _ (lower : String → String) where
  approved_by-IsSound :
      (approver : String) (comment : Option String) (now later : ℕ) (r r' : ApprovalRequest)
      → approved_by lower approver comment now later r ≡ ok r'
      → IsSound r
      → IsSound r'
  unfolding approved_by
  approved_by-IsSound approver comment now later r r' e s =
      let own = s.not_own in
      let few = s.too_few in
      let ref = s.refused in
      let once = s.once in
      let note = note_of comment in
      let len =
        length-append r.approvals
          (record { actor = strip approver; note = note; timestamp = now } ∷ []) in
      let nm1 = not-member-count text_dec (strip approver) (actors r.approvals) in
      let nm2 = not-member-count text_dec (strip approver) (actors r.rejections) in
      record {
        not_own =
            let add = count-added r.submitted_by (strip approver) note now r.approvals in
            ground arith;
        once = λ a.
            let add = count-added a (strip approver) note now r.approvals in
            let o = s.once a in ground arith;
        enough = ground arith;
        too_few = ground arith;
        refused = ground arith;
      }

  rejected_by-IsSound :
      (approver reason : String) (now later : ℕ) (r r' : ApprovalRequest)
      → rejected_by lower approver reason now later r ≡ ok r'
      → IsSound r
      → IsSound r'
  unfolding rejected_by
  rejected_by-IsSound approver reason now later r r' e s =
      let own = s.not_own in
      let actor = strip approver in
      let why = strip reason in
      let nm1 = not-member-count text_dec actor (actors r.approvals) in
      let nm2 = not-member-count text_dec actor (actors r.rejections) in
      record {
        not_own = let add = count-added r.submitted_by actor why now r.rejections in ground arith;
        once = λ a.
            let add = count-added a actor why now r.rejections in let o = s.once a in ground arith;
        enough = ground arith;
        too_few = ground arith;
        refused = ground arith;
      }

  new_request-IsSound :
      (tenant_id request_id policy_id change_summary : String) (risk : ℤ) (submitted_by : String)
      (required : ℤ) (metadata : Dict String String) (now : ℕ) (g : Governance)
      (r : ApprovalRequest)
      → new_request lower tenant_id request_id policy_id change_summary risk submitted_by required
          metadata now g
        ≡ ok r
      → IsSound r
  unfolding new_request
  new_request-IsSound tenant_id request_id policy_id change_summary risk submitted_by required
        metadata now g r e =
      record {
        not_own = ground arith;
        once = λ a. ground arith;
        enough = ground arith;
        too_few = ground arith;
        refused = ground arith;
      }

  -- One call of the workflow, returning or raising.
  pub data Call : Governance → Governance → Type 0 where
    submits :
        {g : Governance} (tenant_id request_id policy_id change_summary : String) (risk : ℤ)
        (submitted_by : String) (required : ℤ) (metadata : Dict String String) (now : ℕ)
        → Call g
            (submit_request lower tenant_id request_id policy_id change_summary risk submitted_by
              required metadata now g).1
    approves :
        {g : Governance} (tenant_id request_id approver : String) (comment : Option String)
        (now later : ℕ)
        → Call g (approve_request lower tenant_id request_id approver comment now later g).1
    rejects :
        {g : Governance} (tenant_id request_id approver reason : String) (now later : ℕ)
        → Call g (reject_request lower tenant_id request_id approver reason now later g).1

  -- the stores that calls on an empty store reach
  pub data Reachable : Governance → Type 0 where
    begin : Reachable (record { requests = []; saved = none })
    called : {g h : Governance} → Reachable g → Call g h → Reachable h

  owned-IsSound :
      (tenant_id request_id : String) (g : Governance) (r : ApprovalRequest)
      → owned_request lower tenant_id request_id g ≡ ok r
      → AllSound g
      → IsSound r
  unfolding AllSound owned_request
  owned-IsSound tenant_id request_id g r e all = all (lower (strip request_id)) r (ground arith)

  Call-AllSound : {g h : Governance} → Call g h → AllSound g → AllSound h
  unfolding submit_request approve_request reject_request
  Call-AllSound {g}
        (submits tenant_id request_id policy_id change_summary risk submitted_by required metadata
          now)
        all =
      elim (Result-cases (
        new_request lower tenant_id request_id policy_id change_summary risk submitted_by required
          metadata now g)) [
            | inl (r, e) ↦
                rw (e, submit_request)
                  (store-AllSound r g
                    (new_request-IsSound tenant_id request_id policy_id change_summary risk
                      submitted_by required metadata now g r e)
                    all)
            | inr (x, e) ↦ rw (e, submit_request) all
          ]
  Call-AllSound {g} (approves tenant_id request_id approver comment now later) all =
      elim (Result-cases (owned_request lower tenant_id request_id g)) [
        | inr (x, e) ↦ rw (e, approve_request) all
        | inl (r, e) ↦ elim (Result-cases (approved_by lower approver comment now later r)) [
          | inr (x, f) ↦ rw (e, f, approve_request) all
          | inl (r', f) ↦
              rw (e, f, approve_request)
                (store-AllSound r' g
                  (approved_by-IsSound approver comment now later r r' f
                    (owned-IsSound tenant_id request_id g r e all))
                  all)
        ]
      ]
  Call-AllSound {g} (rejects tenant_id request_id approver reason now later) all =
      elim (Result-cases (owned_request lower tenant_id request_id g)) [
        | inr (x, e) ↦ rw (e, reject_request) all
        | inl (r, e) ↦ elim (Result-cases (rejected_by lower approver reason now later r)) [
          | inr (x, f) ↦ rw (e, f, reject_request) all
          | inl (r', f) ↦
              rw (e, f, reject_request)
                (store-AllSound r' g
                  (rejected_by-IsSound approver reason now later r r' f
                    (owned-IsSound tenant_id request_id g r e all))
                  all)
        ]
      ]

  -- Whatever calls are made on an empty store, in every stored request the submitter has not reviewed
  -- it, each actor has reviewed it at most once, an approved one has its required approvals, a
  -- pending one has fewer, and only a rejected one has rejections.
  pub Reachable-IsSound :
      {g : Governance} (k : String) (r : ApprovalRequest)
      → Reachable g
      → lookup text_dec k g.requests ≡ some r
      → IsSound r
  unfolding AllSound
  Reachable-IsSound k r begin found = absurd (ground arith)
  Reachable-IsSound k r (called before c) found =
      Call-AllSound c (λ j s f. Reachable-IsSound j s before f) k r found
