-- ===== src/Billing.antt =====
-- src/project_mimic/billing.py: plans, subscriptions and the check of a tenant's usage against its
-- plan. Units are whole multiples of a smallest unit; each reading of the clock is an argument.
pub mod Limits
use project_mimic.Prelude.{
  Result-cases, ite-elim, length, length-append, replicate, keep, any, take, All, count, member,
  without, remove, count-append, count-without, count-remove_ne, count-remove_self, member-count,
  not-member-count, ltb, leb, ◌==◌, if◌then◌else◌, is_some, Bool-cases, Option-cases, ltb→lt,
  leb→le, le→leb, lt→ltb, text_dec, strip, is_empty, strip-strip, Exception, value_error, key_error,
  runtime_error, session_expired, invalid_transition, access_denied, checkpoint_recovery, Result,
  ok, err, Action, pure, raise, lift, gets, or_raise, raise_if, modify, ◌>>=◌, ◌>>◌, ℕ, zero, suc,
  ◌+◌, ◌-◌, ◌*◌, ◌/◌, ◌%◌, ◌^◌, ◌≤◌, ◌<◌, min, max, String, ◌≡◌, refl, sym, ap, ◌∙◌, subst, ◌≢◌,
  ◌↔◌, ◌⊎◌, inl, inr, ite, Bool, true, false, not, ◌&&◌, ◌||◌, Option, none, some, List, [], ◌∷◌,
  ◌++◌, map, arith, ℕ_discrete,
}
use project_mimic.Dict.{Dict, lookup, insert}
use project_mimic.Json.{ℤ, pos, negsuc}

pub record Plan : Type 0 where
  pub plan_id : String
  pub description : String
  pub included_units : Dict String ℕ
  pub hard_limits : Bool
  pub overage_buffer_units : Dict String ℕ
  pub created_at : ℕ
  pub updated_at : ℕ

pub record Subscription : Type 0 where
  pub tenant_id : String
  pub plan_id : String
  pub overage_protection : Bool
  pub started_at : ℕ
  pub updated_at : ℕ

pub record Billing : Type 0 where
  pub plans : Dict String Plan
  pub subscriptions : Dict String Subscription
  pub saved : Option (Dict String Plan × Dict String Subscription)

-- the answer of `check_overage`
pub record Overage : Type 0 where
  pub tenant_id : String
  pub plan_id : Option String
  pub overage_protection : Bool
  pub usage_dimensions : Dict String ℕ
  pub limits : Dict String ℕ
  pub overage_buffer_units : Dict String ℕ
  pub exceeded_dimensions : Dict String ℕ
  pub blocked_dimensions : List String
  pub blocked : Bool
  pub within_limits : Bool

-- the loop of `_normalize_dimensions`, from what it has built
unfoldable pub normalize_from : Dict String ℕ → Dict String ℤ → Result (Dict String ℕ)
normalize_from built [] = ok built
normalize_from built ((k, negsuc n) ∷ rest) =
    let next = normalize_from built rest in
    if is_empty (strip k) then next else err (value_error "dimension units must be >= 0")
normalize_from built ((k, pos n) ∷ rest) =
    if is_empty (strip k)
    then normalize_from built rest
    else normalize_from (insert text_dec (strip k) n built) rest

-- `_normalize_dimensions`
abbrev pub normalize_dimensions : Dict String ℤ → Result (Dict String ℕ)
normalize_dimensions payload = normalize_from [] payload

-- stored units, as the argument of `_normalize_dimensions`
abbrev pub signed : Dict String ℕ → Dict String ℤ
signed [] = []
signed ((k, n) ∷ rest) = (k, pos n) ∷ signed rest

-- `_persist`
abbrev pub persist : Billing → Billing
persist b = record b { saved = some (b.plans, b.subscriptions) }

abbrev pub plan_created : ℕ → Option Plan → ℕ
plan_created now none = now
plan_created now (some p) = p.created_at

abbrev pub started : ℕ → Option Subscription → ℕ
started now none = now
started now (some s) = s.started_at

unfoldable pub upsert_plan :
    String → String → Dict String ℤ → Bool → Dict String ℤ → ℕ → Billing → Result Plan × Billing
upsert_plan plan_id description included hard buffer now b =
    let key = strip plan_id in
    if is_empty key
    then (err (value_error "plan_id must not be empty"), b)
    else elim (normalize_dimensions included) [
      | err e ↦ (err e, b)
      | ok limits ↦ elim (normalize_dimensions buffer) [
        | err e ↦ (err e, b)
        | ok buffers ↦
            let p : Plan = record {
              plan_id = key;
              description = description;
              included_units = limits;
              hard_limits = hard;
              overage_buffer_units = buffers;
              created_at = plan_created now (lookup text_dec key b.plans);
              updated_at = now;
            } in
            (ok p, persist (record b { plans = insert text_dec key p b.plans }))
      ]
    ]

unfoldable pub assign_plan : String → String → Bool → ℕ → Billing → Result Subscription × Billing
assign_plan tenant_id plan_id protection now b =
    let tenant = strip tenant_id in
    let s : Subscription = record {
      tenant_id = tenant;
      plan_id = plan_id;
      overage_protection = protection;
      started_at = started now (lookup text_dec tenant b.subscriptions);
      updated_at = now;
    } in
    if is_empty tenant
    then (err (value_error "tenant_id must not be empty"), b)
    else if not (is_some (lookup text_dec plan_id b.plans))
    then (err (key_error plan_id), b)
    else (ok s, persist (record b { subscriptions = insert text_dec tenant s b.subscriptions }))

abbrev pub units_of : String → Dict String ℕ → ℕ
units_of k d = elim (lookup text_dec k d) [ none ↦ 0 | some n ↦ n ]

-- the loop over `limits.items()`, from the exceeded and the blocked dimensions so far
unfoldable pub scan :
    Dict String ℕ
    → Dict String ℕ
    → Bool
    → Dict String ℕ
    → Dict String ℕ
    → List String
    → Dict String ℕ × List String
scan usage buffers enforced [] exceeded blocked = (exceeded, blocked)
scan usage buffers enforced ((d, limit) ∷ rest) exceeded blocked =
    let used = units_of d usage in
    if leb used limit
    then scan usage buffers enforced rest exceeded blocked
    else scan usage buffers enforced rest (insert text_dec d (used - limit) exceeded)
        (if enforced && ltb (limit + units_of d buffers) used then blocked ++ d ∷ [] else blocked)

-- the answer where there is no plan to check against
abbrev pub unlimited : String → Option String → Bool → Dict String ℕ → Overage
unlimited tenant plan_id protection usage = record {
  tenant_id = tenant;
  plan_id = plan_id;
  overage_protection = protection;
  usage_dimensions = usage;
  limits = [];
  overage_buffer_units = [];
  exceeded_dimensions = [];
  blocked_dimensions = [];
  blocked = false;
  within_limits = true;
}

-- the answer against a plan
unfoldable pub measured :
    String → Subscription → Bool → Dict String ℕ → Dict String ℕ → Dict String ℕ → Overage
measured tenant s hard usage limits buffers =
    let found = scan usage buffers (s.overage_protection && hard) limits [] [] in
    record {
      tenant_id = tenant;
      plan_id = some s.plan_id;
      overage_protection = s.overage_protection;
      usage_dimensions = usage;
      limits = limits;
      overage_buffer_units = buffers;
      exceeded_dimensions = found.0;
      blocked_dimensions = found.1;
      blocked = ltb 0 (length found.1);
      within_limits = length found.0 == 0;
    }

unfoldable pub check_overage : String → Dict String ℤ → Billing → Result Overage
check_overage tenant_id usage_dimensions b =
    let tenant = strip tenant_id in
    if is_empty tenant
    then err (value_error "tenant_id must not be empty")
    else elim (normalize_dimensions usage_dimensions) [
      | err e ↦ err e
      | ok usage ↦ elim (lookup text_dec tenant b.subscriptions) [
        | none ↦ ok (unlimited tenant none false usage)
        | some s ↦ elim (lookup text_dec s.plan_id b.plans) [
          | none ↦ ok (unlimited tenant (some s.plan_id) s.overage_protection usage)
          | some p ↦ elim (normalize_dimensions (signed p.included_units)) [
            | err e ↦ err e
            | ok limits ↦ elim (normalize_dimensions (signed p.overage_buffer_units)) [
              | err e ↦ err e
              | ok buffers ↦ ok (measured tenant s p.hard_limits usage limits buffers)
            ]
          ]
        ]
      ]
    ]

-- `get_plan`
unfoldable pub get_plan : String → Billing → Result Plan
get_plan plan_id b = elim (lookup text_dec plan_id b.plans) [
  | none ↦ err (key_error plan_id)
  | some p ↦ ok p
]

-- `get_subscription`
unfoldable pub get_subscription : String → Billing → Result Subscription
get_subscription tenant_id b = elim (lookup text_dec tenant_id b.subscriptions) [
  | none ↦ err (key_error tenant_id)
  | some s ↦ ok s
]

pub record MonthlyReport : Type 0 where
  pub overage : Overage
  pub month : String
  pub generated_at : ℕ

-- the check's answer, with the month and the time
unfoldable pub monthly_report : String → String → Dict String ℤ → ℕ → Billing → Result MonthlyReport
monthly_report tenant_id month usage now b = elim (check_overage tenant_id usage b) [
  | err e ↦ err e
  | ok o ↦ ok (record { overage = o; month = month; generated_at = now })
]
