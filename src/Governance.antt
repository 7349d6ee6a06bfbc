-- ===== src/Governance.antt =====
-- src/project_mimic/governance_approval.py. Risk scores are whole hundredths; `lower` is a
-- parameter for Python's `str.lower`; each reading of the clock is an argument. The store keeps a copy of the requests.
pub mod Separation
use project_mimic.Prelude.{
  Result-cases, ite-elim, length, length-append, replicate, keep, any, take, All, count, member,
  without, remove, count-append, count-without, count-remove_ne, count-remove_self, member-count,
  not-member-count, ltb, leb, ◌==◌, if◌then◌else◌, is_some, Bool-cases, Option-cases, ltb→lt,
  leb→le, le→leb, lt→ltb, text_dec, strip, is_empty, strip-strip, Exception, value_error, key_error,
  runtime_error, session_expired, invalid_transition, access_denied, checkpoint_recovery, Result,
  ok, err, Action, pure, raise, lift, gets, or_raise, raise_if, modify, ◌>>=◌, ◌>>◌, ℕ, zero, suc,
  ◌+◌, ◌-◌, ◌*◌, ◌/◌, ◌%◌, ◌^◌, ◌≤◌, ◌<◌, min, max, String, ◌≡◌, refl, sym, ap, ◌∙◌, subst, ◌≢◌,
  ◌↔◌, ◌⊎◌, inl, inr, ite, Bool, true, false, not, ◌&&◌, ◌||◌, Option, none, some, List, [], ◌∷◌,
  ◌++◌, map, arith, ℕ_discrete,
}
use project_mimic.Dict.{Dict, lookup, insert}
use project_mimic.Json.{ℤ, pos, negsuc}

pub data ApprovalStatus : Type 0 where
  pending approved rejected : ApprovalStatus

-- an approval with its comment, or a rejection with its reason
pub record ReviewEvent : Type 0 where
  pub actor : String
  pub note : String
  pub timestamp : ℕ

pub record ApprovalRequest : Type 0 where
  pub request_id : String
  pub tenant_id : String
  pub policy_id : String
  pub change_summary : String
  pub risk_score : ℕ
  pub submitted_by : String
  pub required_approvals : ℕ
  pub approvals : List ReviewEvent
  pub rejections : List ReviewEvent
  pub status : ApprovalStatus
  pub metadata : Dict String String
  pub created_at : ℕ
  pub updated_at : ℕ

pub record Governance : Type 0 where
  pub requests : Dict String ApprovalRequest
  pub saved : Option (Dict String ApprovalRequest)

abbrev pub actors : List ReviewEvent → List String
actors [] = []
actors (e ∷ es) = e.actor ∷ actors es

-- a score in [0, 1], as hundredths
abbrev pub valid_risk : ℤ → Option ℕ
valid_risk (pos n) = if ltb 100 n then none else some n
valid_risk (negsuc n) = none

-- an integer above 0
abbrev pub positive : ℤ → Option ℕ
positive (pos n) = if ltb 0 n then some n else none
positive (negsuc n) = none

abbrev pub is_pending : ApprovalStatus → Bool
is_pending pending = true
is_pending _ = false

-- `self._requests[request_id] = payload` and `_persist`
abbrev pub store : ApprovalRequest → Governance → Governance
store r g =
    let requests' = insert text_dec r.request_id r g.requests in
    record g { requests = requests'; saved = some requests' }

abbrev pub note_of : Option String → String
note_of none = ""
note_of (some c) = strip c

module _ (lower : String → String) where
  -- the checks of `submit_request`, in order, and the request that they let through
  unfoldable pub new_request :
      String
      → String
      → String
      → String
      → ℤ
      → String
      → ℤ
      → Dict String String
      → ℕ
      → Governance
      → Result ApprovalRequest
  new_request tenant_id request_id policy_id change_summary risk_score submitted_by required
        metadata now g =
      let tenant = strip tenant_id in
      let rid = lower (strip request_id) in
      let policy = lower (strip policy_id) in
      let summary = strip change_summary in
      let submitter = strip submitted_by in
      if is_empty tenant
      then err (value_error "tenant_id must not be empty")
      else if is_empty rid
      then err (value_error "request_id must not be empty")
      else if is_some (lookup text_dec rid g.requests)
      then err (value_error "approval request already exists")
      else if is_empty policy
      then err (value_error "policy_id must not be empty")
      else if is_empty summary
      then err (value_error "change_summary must not be empty")
      else elim (valid_risk risk_score) [
        | none ↦ err (value_error "risk_score must be within [0, 1]")
        | some risk ↦
            if ltb risk 70
            then err (value_error "approval workflow requires high-risk change (risk_score >= 0.7)")
            else if is_empty submitter
            then err (value_error "submitted_by must not be empty")
            else elim (positive required) [
              | none ↦ err (value_error "required_approvals must be > 0")
              | some n ↦ ok (record {
                request_id = rid;
                tenant_id = tenant;
                policy_id = policy;
                change_summary = summary;
                risk_score = risk;
                submitted_by = submitter;
                required_approvals = n;
                approvals = [];
                rejections = [];
                status = pending;
                metadata = metadata;
                created_at = now;
                updated_at = now;
              })
            ]
      ]

  unfoldable pub submit_request :
      String
      → String
      → String
      → String
      → ℤ
      → String
      → ℤ
      → Dict String String
      → ℕ
      → Action Governance ApprovalRequest
  submit_request tenant_id request_id policy_id change_summary risk_score submitted_by required
        metadata now g =
      elim (new_request tenant_id request_id policy_id change_summary risk_score submitted_by
        required metadata now g) [ err e ↦ (err e, g) | ok r ↦ (ok r, store r g) ]

  -- `_get_owned_request`
  unfoldable pub owned_request : String → String → Governance → Result ApprovalRequest
  owned_request tenant_id request_id g =
      let tenant = strip tenant_id in
      let rid = lower (strip request_id) in
      if is_empty tenant
      then err (value_error "tenant_id must not be empty")
      else if is_empty rid
      then err (value_error "request_id must not be empty")
      else elim (lookup text_dec rid g.requests) [
        | none ↦ err (value_error "approval request not found")
        | some r ↦
            ite (text_dec r.tenant_id tenant) (ok r)
              (err (value_error "approval request does not belong to tenant"))
      ]

  -- the checks of `approve_request` on the request, and the request with the approval
  unfoldable pub approved_by :
      String → Option String → ℕ → ℕ → ApprovalRequest → Result ApprovalRequest
  approved_by approver comment now later r =
      let actor = strip approver in
      let approvals' =
        r.approvals ++ record { actor = actor; note = note_of comment; timestamp = now } ∷ [] in
      if not (is_pending r.status)
      then err (value_error "approval request is not pending")
      else if is_empty actor
      then err (value_error "approver must not be empty")
      else ite (text_dec actor r.submitted_by)
          (err (value_error "submitter cannot approve own request"))
          (if member text_dec actor (actors r.approvals)
            then err (value_error "approver already recorded")
            else if member text_dec actor (actors r.rejections)
            then err (value_error "actor already rejected this request")
            else ok (record r {
              approvals = approvals';
              status = if leb r.required_approvals (length approvals') then approved else r.status;
              updated_at = later;
            }))

  unfoldable pub approve_request :
      String → String → String → Option String → ℕ → ℕ → Action Governance ApprovalRequest
  approve_request tenant_id request_id approver comment now later g =
      elim (owned_request tenant_id request_id g) [
        | err e ↦ (err e, g)
        | ok r ↦ elim (approved_by approver comment now later r) [
          | err e ↦ (err e, g)
          | ok r' ↦ (ok r', store r' g)
        ]
      ]

  -- the checks of `reject_request` on the request, and the request with the rejection
  unfoldable pub rejected_by : String → String → ℕ → ℕ → ApprovalRequest → Result ApprovalRequest
  rejected_by approver reason now later r =
      let actor = strip approver in
      let why = strip reason in
      if not (is_pending r.status)
      then err (value_error "approval request is not pending")
      else if is_empty actor
      then err (value_error "approver must not be empty")
      else ite (text_dec actor r.submitted_by)
          (err (value_error "submitter cannot reject own request"))
          (if is_empty why
            then err (value_error "reason must not be empty")
            else if member text_dec actor (actors r.approvals)
            then err (value_error "actor already approved this request")
            else if member text_dec actor (actors r.rejections)
            then err (value_error "approver already rejected")
            else ok (record r {
              rejections =
                  r.rejections ++ record { actor = actor; note = why; timestamp = now } ∷ [];
              status = rejected;
              updated_at = later;
            }))

  unfoldable pub reject_request :
      String → String → String → String → ℕ → ℕ → Action Governance ApprovalRequest
  reject_request tenant_id request_id approver reason now later g =
      elim (owned_request tenant_id request_id g) [
        | err e ↦ (err e, g)
        | ok r ↦ elim (rejected_by approver reason now later r) [
          | err e ↦ (err e, g)
          | ok r' ↦ (ok r', store r' g)
        ]
      ]

  -- `get_request`
  unfoldable pub get_request : String → String → Governance → Result (Option ApprovalRequest)
  get_request tenant_id request_id g =
      let rid = lower (strip request_id) in
      let tenant = strip tenant_id in
      if is_empty rid
      then err (value_error "request_id must not be empty")
      else if is_empty tenant
      then err (value_error "tenant_id must not be empty")
      else elim (lookup text_dec rid g.requests) [
        | none ↦ ok none
        | some r ↦ ite (text_dec r.tenant_id tenant) (ok (some r)) (ok none)
      ]
