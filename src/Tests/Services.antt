-- ===== src/Tests/Services.antt =====
-- Runs of the approval workflow, the feature flags, the billing check and the review queue:
-- src/project_mimic/governance_approval.py, feature_flags.py, billing.py and review_queue.py.
use project_mimic.Prelude.{
  text_dec, strip, value_error, err, ℕ, String, ◌≡◌, refl, true, false, none, some, [], ◌∷◌, arith,
}
use project_mimic.Dict.{lookup}
use project_mimic.Json.{end, pos}
use project_mimic.Governance.{
  approved, owned_request, approved_by, Governance, ApprovalRequest, new_request, submit_request,
  approve_request,
}
use project_mimic.Governance.Separation.{
  IsSound, Reachable, begin, called, submits, approves, Reachable-IsSound,
}
use project_mimic.Flags.{Flag, FlagService, get, evaluate, upsert, evaluate_flag}
use project_mimic.Flags.Rollout.{seen, widen}
use project_mimic.Reviews as reviews
use project_mimic.Reviews.{ReviewItem, ReviewQueue, decided, resolve}
use project_mimic.Reviews.Decisions.{resolve_again}
use project_mimic.Billing.{
  Billing, Plan, Subscription, Overage, check_overage, measured, scan, normalize_from,
}
use project_mimic.Billing.Limits.{Reports, check_overage_lem}

abbrev same : String → String
same s = s

abbrev no_requests : Governance
no_requests = record { requests = []; saved = none }

abbrev submitted : Governance
submitted =
    (submit_request same "tenant" "change" "policy" "more access" (pos 80) "ada" (pos 1) [] 3
      no_requests).1

abbrev settled : Governance
settled = (approve_request same "tenant" "change" "grace" none 4 5 submitted).1

-- the request after its approval
abbrev granted : ApprovalRequest
granted = record {
  request_id = "change";
  tenant_id = "tenant";
  policy_id = "policy";
  change_summary = "more access";
  risk_score = 80;
  submitted_by = "ada";
  required_approvals = 1;
  approvals = record { actor = "grace"; note = ""; timestamp = 4 } ∷ [];
  rejections = [];
  status = approved;
  metadata = [];
  created_at = 3;
  updated_at = 5;
}

settled-Reachable : Reachable same settled
settled-Reachable =
    called
      (called begin (submits "tenant" "change" "policy" "more access" (pos 80) "ada" (pos 1) [] 3))
      (approves "tenant" "change" "grace" none 4 5)

Reachable-IsSound_example : IsSound granted
unfolding text_dec strip submit_request new_request approve_request owned_request approved_by
Reachable-IsSound_example = Reachable-IsSound same "change" granted settled-Reachable refl

abbrev flag : Flag
flag = record {
  flag_key = "new_ui";
  description = "";
  enabled = true;
  rollout_percentage = 20;
  tenant_allowlist = [];
  subject_allowlist = [];
  metadata = [];
  created_at = 0;
  updated_at = 0;
}

abbrev no_flags : FlagService
no_flags = record { flags = []; saved = none }

abbrev digest_of : String → String → ℕ
digest_of k s = 210

abbrev set_to : ℕ → FlagService
set_to p = (upsert (λ l. l) "new_ui" "" true (pos p) [] [] [] 0 no_flags).1

widen_example : seen (evaluate digest_of "new_ui" "user" "tenant" 9 (set_to 60)) ≡ true
unfolding text_dec strip upsert get evaluate evaluate_flag
widen_example =
    widen (λ l. l) digest_of "new_ui" "" true 20 60 [] [] [] 0 no_flags "new_ui" "user" "tenant" 9
      (omega arith) (omega arith) refl

abbrev plan : Plan
plan = record {
  plan_id = "team";
  description = "";
  included_units = ("runs", 100) ∷ [];
  hard_limits = true;
  overage_buffer_units = ("runs", 10) ∷ [];
  created_at = 0;
  updated_at = 0;
}

abbrev subscription : Subscription
subscription = record {
  tenant_id = "tenant";
  plan_id = "team";
  overage_protection = true;
  started_at = 0;
  updated_at = 0;
}

abbrev billed : Billing
billed = record {
  plans = ("team", plan) ∷ [];
  subscriptions = ("tenant", subscription) ∷ [];
  saved = none;
}

abbrev overrun : Overage
overrun = record {
  tenant_id = "tenant";
  plan_id = some "team";
  overage_protection = true;
  usage_dimensions = ("runs", 120) ∷ [];
  limits = ("runs", 100) ∷ [];
  overage_buffer_units = ("runs", 10) ∷ [];
  exceeded_dimensions = ("runs", 20) ∷ [];
  blocked_dimensions = "runs" ∷ [];
  blocked = true;
  within_limits = false;
}

check_overage_lem_example : Reports true "runs" (some 120) (some 100) (some 10) overrun
unfolding text_dec strip check_overage measured scan normalize_from
check_overage_lem_example =
    check_overage_lem "tenant" (("runs", pos 120) ∷ []) billed subscription plan overrun "runs" refl
      refl refl

abbrev waiting : ReviewQueue
waiting = record {
  items =
      (
        "r1",
        record {
          review_id = "r1";
          tenant_id = "tenant";
          session_id = none;
          action_payload = end;
          confidence = 40;
          reason = "low confidence";
          status = reviews.pending;
          resolution = none;
          resolution_note = none;
          created_at = 1;
          resolved_at = none;
        },
      )
      ∷ [];
  saved = none;
}

abbrev resolved : ReviewItem
resolved = record {
  review_id = "r1";
  tenant_id = "tenant";
  session_id = none;
  action_payload = end;
  confidence = 40;
  reason = "low confidence";
  status = reviews.approved;
  resolution = some reviews.approved;
  resolution_note = none;
  created_at = 1;
  resolved_at = some 5;
}

resolve_again_example :
    (lookup text_dec "r1" (resolve same "r1" " approved" none 5 waiting).1.items ≡ some resolved)
    × (resolved.resolution ≡ some resolved.status)
    × (resolve same "r1" "rejected" none 6 (resolve same "r1" " approved" none 5 waiting).1 ≡ (
      err (value_error "review item is already resolved"),
      (resolve same "r1" " approved" none 5 waiting).1,
    ))
unfolding text_dec strip decided resolve
resolve_again_example =
    resolve_again same "r1" " approved" "rejected" none none 5 6 waiting resolved refl
