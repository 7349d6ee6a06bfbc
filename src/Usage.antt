-- ===== src/Usage.antt =====
-- src/project_mimic/usage_metering.py: the units that tenants use, in one record for a tenant, a
-- dimension and a day. Times are in seconds, units in steps of 0.0001.
pub mod Totals
pub mod Owners
use project_mimic.Prelude.{
  All-weaken, if_both, le_text, sort_by, place_by, keep-sort_by, length-sort_by, All-sort_by,
  IsSortedBy, sort_by-IsSortedBy, member-sort_by, Result-cases, round_div, ite-elim, length,
  length-append, replicate, keep, any, take, drop, All, count, member, without, remove,
  count-append, count-without, count-remove_ne, count-remove_self, member-count, not-member-count,
  ltb, leb, ◌==◌, if◌then◌else◌, is_some, Bool-cases, Option-cases, ltb→lt, leb→le, le→leb, lt→ltb,
  text_dec, strip, joined, is_empty, strip-strip, Exception, value_error, key_error, runtime_error,
  session_expired, invalid_transition, access_denied, checkpoint_recovery, Result, ok, err, Action,
  pure, raise, lift, gets, or_raise, raise_if, modify, ◌>>=◌, ◌>>◌, ℕ, zero, suc, ◌+◌, ◌-◌, ◌*◌,
  ◌/◌, ◌%◌, ◌^◌, ◌≤◌, ◌<◌, min, max, String, ◌≡◌, refl, sym, ap, ◌∙◌, subst, ◌≢◌, ◌↔◌, ◌⊎◌, inl,
  inr, ite, Bool, true, false, not, ◌&&◌, ◌||◌, Option, none, some, List, [], ◌∷◌, ◌++◌, map, arith,
  ℕ_discrete,
}
use project_mimic.Dict.{Dict, lookup, insert}
use project_mimic.Json.{ℤ, pos, negsuc, leℤ}

pub record Usage : Type 0 where
  pub record_key : String
  pub tenant_id : String
  pub dimension : String
  pub day_bucket : ℕ
  pub units : ℕ
  pub created_at : ℕ
  pub updated_at : ℕ

pub record Metering : Type 0 where
  pub records : Dict String Usage
  pub saved : Option (Dict String Usage)

pub record Summary : Type 0 where
  pub tenant_id : String
  pub start_day : Option ℤ
  pub end_day : Option ℤ
  pub dimensions : Dict String ℕ
  pub total_units : ℕ

-- one decimal digit
abbrev digit : ℕ → String
digit n =
    if n == 0
    then "0"
    else if n == 1
    then "1"
    else if n == 2
    then "2"
    else if n == 3
    then "3"
    else if n == 4
    then "4"
    else if n == 5
    then "5"
    else if n == 6
    then "6"
    else if n == 7
    then "7"
    else if n == 8
    then "8"
    else "9"

-- `str(n)`, before the digits that are there, for at most `fuel` digits
unfoldable pub digits : ℕ → ℕ → String → String
digits zero n s = s
digits (suc fuel) n s =
    let t = joined (digit (n % 10)) s in
    let rest = digits fuel (n / 10) t in if ltb n 10 then t else rest

-- the key of the record of a tenant, a dimension and a day
unfoldable pub record_key : String → String → ℕ → String
record_key tenant dimension day =
    joined tenant (joined "::" (joined dimension (joined "::" (digits (suc day) day ""))))

abbrev pub day_of : ℕ → ℕ
day_of at = at / 86400

-- `time.time() if timestamp is None else float(timestamp)`
abbrev pub recorded_at : Option ℕ → ℕ → ℕ
recorded_at none now = now
recorded_at (some t) now = t

-- the payload of `record`, beside the record that is there
abbrev pub metered : String → String → ℕ → ℕ → Option Usage → Usage
metered tenant dimension units at none = record {
  record_key = record_key tenant dimension (day_of at);
  tenant_id = tenant;
  dimension = dimension;
  day_bucket = day_of at;
  units = units;
  created_at = at;
  updated_at = at;
}
metered tenant dimension units at (some existing) = record {
  record_key = record_key tenant dimension (day_of at);
  tenant_id = tenant;
  dimension = dimension;
  day_bucket = day_of at;
  units = units + existing.units;
  created_at = existing.created_at;
  updated_at = at;
}

-- `self._records[key] = payload` and `_persist`
abbrev pub store_record : String → Usage → Metering → Metering
store_record k u m =
    let records' = insert text_dec k u m.records in
    record m { records = records'; saved = some records' }

unfoldable pub meter : String → String → ℤ → Option ℕ → ℕ → Action Metering Usage
meter tenant_id dimension units timestamp now m =
    let at = recorded_at timestamp now in
    let k = record_key (strip tenant_id) (strip dimension) (day_of at) in
    if is_empty (strip tenant_id)
    then (err (value_error "tenant_id must not be empty"), m)
    else if is_empty (strip dimension)
    then (err (value_error "dimension must not be empty"), m)
    else elim units [
      | negsuc n ↦ (err (value_error "units must be > 0"), m)
      | pos n ↦
          let u = metered (strip tenant_id) (strip dimension) n at (lookup text_dec k m.records) in
          if ltb 0 n then (ok u, store_record k u m) else (err (value_error "units must be > 0"), m)
    ]

abbrev same_text : Option String → String → Bool
same_text none s = true
same_text (some t) s = ite (text_dec s t) true false

-- the filter of `list_records`
unfoldable pub select : Option String → Option String → Dict String Usage → List Usage
select tenant dimension [] = []
select tenant dimension ((k, u) ∷ d) =
    let rest = select tenant dimension d in
    if same_text tenant u.tenant_id && same_text dimension u.dimension then u ∷ rest else rest

-- the later day first, then the later update
abbrev newer : Usage → Usage → Bool
newer u w =
    if ltb w.day_bucket u.day_bucket
    then true
    else if w.day_bucket == u.day_bucket
    then leb w.updated_at u.updated_at
    else false

unfoldable pub list_records : Option String → Option String → ℤ → Metering → List Usage
list_records tenant dimension (negsuc n) m = []
list_records tenant dimension (pos limit) m =
    take limit (sort_by newer (select tenant dimension m.records))

-- whether a day is in a period
abbrev pub within : Option ℤ → Option ℤ → ℕ → Bool
within start end day =
    elim start [ none ↦ true | some s ↦ leℤ s (pos day) ]
    && elim end [ none ↦ true | some e ↦ leℤ (pos day) e ]

abbrev pub units_at : String → Dict String ℕ → ℕ
units_at dimension d = elim (lookup text_dec dimension d) [ none ↦ 0 | some n ↦ n ]

-- the loop of `summarize`, with its two results so far
unfoldable pub summed :
    String → Option ℤ → Option ℤ → Dict String ℕ → ℕ → Dict String Usage → Dict String ℕ × ℕ
summed tenant start end dims total [] = (dims, total)
summed tenant start end dims total ((k, u) ∷ d) =
    let counted =
      summed tenant start end
        (insert text_dec u.dimension (units_at u.dimension dims + u.units) dims) (total + u.units)
        d in
    let skipped = summed tenant start end dims total d in
    if ite (text_dec u.tenant_id tenant) true false && within start end u.day_bucket
    then counted
    else skipped

unfoldable pub summarize : String → Option ℤ → Option ℤ → Metering → Result Summary
summarize tenant_id start end m =
    let (dims, total) = summed (strip tenant_id) start end [] 0 m.records in
    if is_empty (strip tenant_id)
    then err (value_error "tenant_id must not be empty")
    else ok (record {
      tenant_id = strip tenant_id;
      start_day = start;
      end_day = end;
      dimensions = dims;
      total_units = total;
    })
