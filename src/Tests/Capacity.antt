-- ===== src/Tests/Capacity.antt =====
-- Runs of the services that meter and place: src/project_mimic/usage_metering.py and
-- data_residency.py.
use project_mimic.Prelude.{
  le_text, sort_by, place_by, text_dec, strip, is_empty, ℕ, ◌+◌, String, ◌≡◌, refl, ite, false,
  ◌||◌, none, some, [], ◌∷◌,
}
use project_mimic.Json.{pos}
use project_mimic.Usage.{Metering, Summary, Usage, meter, summarize, summed, record_key, digits}
use project_mimic.Usage.Totals.{used, sum_of, summarize_lem}
use project_mimic.Usage.Owners as owners
use project_mimic.Usage.Owners.{before_colon, summarize-meter}
use project_mimic.Usage.{units_at}
use project_mimic.Residency.{
  Residency, ResidencyPolicy, ResidencyVerdict, or_blank, set_policy, validate,
}
use project_mimic.Residency.Validation.{lists, validate-set_policy}
use project_mimic.Residency.{region_not_permitted}

abbrev same : String → String
same s = s

abbrev no_usage : Metering
no_usage = record { records = []; saved = none }

abbrev metered : Metering
metered = (meter "acme" "steps" (pos 3) none 100 no_usage).1

abbrev usage : Usage
usage = record {
  record_key = "acme::steps::0";
  tenant_id = "acme";
  dimension = "steps";
  day_bucket = 0;
  units = 7;
  created_at = 100;
  updated_at = 200;
}

abbrev summary : ℕ → Summary
summary n = record {
  tenant_id = "acme";
  start_day = none;
  end_day = none;
  dimensions = ("steps", n) ∷ [];
  total_units = n;
}

summarize_lem_example :
    ((summary 3).total_units ≡ used (strip "acme") none none none metered.records)
    × (sum_of (summary 3).dimensions ≡ (summary 3).total_units)
    × ((dimension : String)
        → units_at dimension (summary 3).dimensions
          ≡ used (strip "acme") (some dimension) none none metered.records)
unfolding text_dec strip meter record_key digits summed summarize
summarize_lem_example = summarize_lem "acme" none none metered (summary 3) refl

summarize-meter_example :
    (summary 7).total_units
    ≡ (summary 3).total_units + ite (text_dec (strip "acme") (strip "acme")) 4 0
unfolding text_dec strip meter record_key digits summed summarize before_colon
summarize-meter_example =
    summarize-meter {m = metered} (owners.meters "acme" "steps" (pos 3) none 100 refl owners.begin)
      "acme" "steps" 4 none 200 usage refl refl "acme" (summary 3) (summary 7) refl refl

abbrev no_residency : Residency
no_residency = record { policies = []; saved = none }

abbrev european : ResidencyPolicy
european = record {
  tenant_id = "acme";
  allowed_regions = "eu" ∷ "uk" ∷ [];
  default_region = "eu";
  created_at = 4;
  updated_at = 4;
}

abbrev set : Residency
set = (set_policy same "acme" ("uk" ∷ "eu" ∷ " " ∷ "eu" ∷ []) none 4 no_residency).1

abbrev verdict : ResidencyVerdict
verdict = record {
  tenant_id = "acme";
  region = "us";
  allowed = false;
  reason = region_not_permitted;
  policy = some ("eu" ∷ "uk" ∷ [], "eu");
}

validate-set_policy_example :
    (verdict.allowed ≡ (
      is_empty (or_blank same (some "us"))
      || lists same (or_blank same (some "us")) ("uk" ∷ "eu" ∷ " " ∷ "eu" ∷ [])))
    × (validate same "other" (some "us") set ≡ validate same "other" (some "us") no_residency)
unfolding text_dec strip set_policy validate sort_by place_by le_text
validate-set_policy_example =
    validate-set_policy same "acme" ("uk" ∷ "eu" ∷ " " ∷ "eu" ∷ []) none 4 no_residency european
      (some "us") verdict "other" (some "us") refl refl (λ e. cc e)
