-- ===== src/Usage/Owners.antt =====
-- Whose units the records of src/project_mimic/usage_metering.py are. A record stands under the text
-- `tenant::dimension::day`.
use Prim.Native.Char.{code}
use Prim.Native.String as strings
use project_mimic.Prelude.{
  if_both, All, ltb, ◌==◌, if◌then◌else◌, Bool-cases, text_dec, strip, joined, is_empty, Result, ok,
  ℕ, ◌+◌, String, ◌≡◌, refl, sym, ap, ◌∙◌, inl, inr, ite, Option, none, some, [], ◌∷◌, arith,
}
use project_mimic.Dict.{Dict, lookup, insert, All-found, All-insert}
use project_mimic.Json.{ℤ, pos, negsuc}
use project_mimic.Usage.{
  Usage, Metering, Summary, record_key, day_of, recorded_at, metered, meter, summarize,
}
use project_mimic.Usage.Totals.{used, summarize_lem}

-- the text before the first colon
unfoldable pub before_colon : String → String
before_colon strings.[] = strings.[]
before_colon (strings.◌∷◌ c s) =
    let rest = before_colon s in if code c == 58 then strings.[] else strings.◌∷◌ c rest

abbrev rest_of : String → String
rest_of strings.[] = strings.[]
rest_of (strings.◌∷◌ c s) = s

pub before_colon-joined :
    (s t : String) → before_colon s ≡ s → before_colon (joined s (joined "::" t)) ≡ s
unfolding before_colon
before_colon-joined strings.[] t h = refl
before_colon-joined (strings.◌∷◌ c s) t h = elim (Bool-cases (code c == 58)) [
  | inl colon ↦ absurd (let g : strings.[] ≡ strings.◌∷◌ c s = ground (arith, h, colon) in cc g)
  | inr other ↦
      let g : strings.◌∷◌ c (before_colon s) ≡ strings.◌∷◌ c s = ground (arith, h, other) in
      let tail : before_colon s ≡ s = ap rest_of g in
      let ih = before_colon-joined s t tail in ground (arith, other, ih)
]

-- every record stands under a key of its tenant's
abbrev IsOwn : String × Usage → Type 0
IsOwn x = before_colon x.0 ≡ x.1.tenant_id

abbrev IsOwned : Dict String Usage → Type 0
IsOwned d = All IsOwn d

-- the units of a record that are its tenant's
abbrev share : String → Option Usage → ℕ
share tenant none = 0
share tenant (some u) = ite (text_dec u.tenant_id tenant) u.units 0

used-insert :
    (tenant k : String) (u : Usage) (d : Dict String Usage)
    → used tenant none none none (insert text_dec k u d) + share tenant (lookup text_dec k d)
      ≡ used tenant none none none d + share tenant (some u)
used-insert tenant k u [] = ground arith
used-insert tenant k u ((j, w) ∷ d) = let ih = used-insert tenant k u d in ground (arith, ih)

before_colon-record_key :
    (tenant dimension : String) (day : ℕ)
    → before_colon tenant ≡ tenant
    → before_colon (record_key tenant dimension day) ≡ tenant
unfolding record_key
before_colon-record_key tenant dimension day free = before_colon-joined tenant _ free

share-metered :
    (tenant dimension b : String) (n at x y : ℕ) (o : Option Usage)
    → ((r : Usage) → o ≡ some r → tenant ≡ r.tenant_id)
    → x + share b o ≡ y + share b (some (metered tenant dimension n at o))
    → x ≡ y + ite (text_dec tenant b) n 0
share-metered tenant dimension b n at x y none own h = ground (arith, h)
share-metered tenant dimension b n at x y (some r) own h =
    let owner = own r refl in
    let same : ite (text_dec tenant b) r.units 0 ≡ ite (text_dec r.tenant_id b) r.units 0 =
      ap (λ (t : String). ite (text_dec t b) r.units 0) owner in
    elim (text_dec tenant b) [
      | yes e ↦ ground (arith, e, h, same)
      | no ne ↦ ground (arith, ne, h, same)
    ]

used-store_record :
    (tenant dimension b : String) (n at : ℕ) (d : Dict String Usage)
    → before_colon tenant ≡ tenant
    → IsOwned d
    → used b none none none (
        insert text_dec
          (record_key tenant dimension (day_of at))
          (metered tenant dimension n at
            (lookup text_dec (record_key tenant dimension (day_of at)) d))
          d)
      ≡ used b none none none d + ite (text_dec tenant b) n 0
used-store_record tenant dimension b n at d free o =
    let k = record_key tenant dimension (day_of at) in
    let mine = before_colon-record_key tenant dimension (day_of at) free in
    let s = used-insert b k (metered tenant dimension n at (lookup text_dec k d)) d in
    share-metered tenant dimension b n at _ _ (lookup text_dec k d)
      (λ r found. sym mine ∙ All-found text_dec IsOwn d k r o found) s

IsOwned-store_record :
    (tenant dimension : String) (n at : ℕ) (o : Option Usage) (d : Dict String Usage)
    → before_colon tenant ≡ tenant
    → IsOwned d
    → IsOwned (
        insert text_dec
          (record_key tenant dimension (day_of at))
          (metered tenant dimension n at o)
          d)
IsOwned-store_record tenant dimension n at o d free owned =
    let mine = before_colon-record_key tenant dimension (day_of at) free in
    All-insert text_dec IsOwn (record_key tenant dimension (day_of at))
      (metered tenant dimension n at o) d (mine ∙ of_metered o) owned
  where
    of_metered : (o' : Option Usage) → tenant ≡ (metered tenant dimension n at o').tenant_id
    of_metered none = refl
    of_metered (some r) = refl

IsOwned-meter :
    (tenant_id dimension : String) (units : ℤ) (timestamp : Option ℕ) (now : ℕ) (m : Metering)
    → before_colon (strip tenant_id) ≡ strip tenant_id
    → IsOwned m.records
    → IsOwned (meter tenant_id dimension units timestamp now m).1.records
unfolding meter
IsOwned-meter tenant_id dimension (negsuc n) timestamp now m free owned =
    if_both P (is_empty (strip tenant_id)) _ _ owned
      (if_both P (is_empty (strip dimension)) _ _ owned owned)
  where
    P : Result Usage × Metering → Type 0
    P x = IsOwned x.1.records
IsOwned-meter tenant_id dimension (pos n) timestamp now m free owned =
    let at = recorded_at timestamp now in
    let stored =
      IsOwned-store_record (strip tenant_id) (strip dimension) n at
        (lookup text_dec (record_key (strip tenant_id) (strip dimension) (day_of at)) m.records)
        m.records free owned in
    if_both P (is_empty (strip tenant_id)) _ _ owned
      (if_both P (is_empty (strip dimension)) _ _ owned (if_both P (ltb 0 n) _ _ stored owned))
  where
    P : Result Usage × Metering → Type 0
    P x = IsOwned x.1.records

meter_done :
    (tenant_id dimension : String) (n : ℕ) (timestamp : Option ℕ) (now : ℕ) (m : Metering)
    (u : Usage)
    → (meter tenant_id dimension (pos n) timestamp now m).0 ≡ ok u
    → (meter tenant_id dimension (pos n) timestamp now m).1.records
      ≡ insert text_dec
          (record_key (strip tenant_id) (strip dimension) (day_of (recorded_at timestamp now)))
          (metered (strip tenant_id) (strip dimension) n (recorded_at timestamp now) (
            lookup text_dec
              (record_key (strip tenant_id) (strip dimension) (day_of (recorded_at timestamp now)))
              m.records))
          m.records
unfolding meter
meter_done tenant_id dimension n timestamp now m u done =
    elim (Bool-cases (is_empty (strip tenant_id))) [
      | inl blank ↦ absurd (ground (arith, blank, done))
      | inr named ↦ elim (Bool-cases (is_empty (strip dimension))) [
        | inl blank ↦ absurd (ground (arith, named, blank, done))
        | inr full ↦ elim (Bool-cases (ltb 0 n)) [
          | inr idle ↦ absurd (ground (arith, named, full, idle, done))
          | inl counts ↦ rw (named, full, counts, meter) refl
        ]
      ]
    ]

-- the tables that calls for tenants without a colon reach from an empty one
pub data Reachable : Metering → Type 0 where
  begin : Reachable (record { records = []; saved = none })
  meters :
      {m : Metering} (tenant_id dimension : String) (units : ℤ) (timestamp : Option ℕ) (now : ℕ)
      → before_colon (strip tenant_id) ≡ strip tenant_id
      → Reachable m
      → Reachable (meter tenant_id dimension units timestamp now m).1

Reachable-IsOwned : {m : Metering} → Reachable m → IsOwned m.records
Reachable-IsOwned begin = tt
Reachable-IsOwned (meters tenant_id dimension units timestamp now free before) =
    IsOwned-meter tenant_id dimension units timestamp now _ free (Reachable-IsOwned before)

-- When no tenant's name has a colon, a call that records `n` units for a tenant adds them to the
-- total of that tenant's summary over all days, and leaves every other tenant's total as it was.
pub summarize-meter :
    {m : Metering}
    → Reachable m
    → (tenant_id dimension : String) (n : ℕ) (timestamp : Option ℕ) (now : ℕ) (u : Usage)
    → before_colon (strip tenant_id) ≡ strip tenant_id
    → (meter tenant_id dimension (pos n) timestamp now m).0 ≡ ok u
    → (b : String) (s s' : Summary) → summarize b none none m ≡ ok s
    → summarize b none none (meter tenant_id dimension (pos n) timestamp now m).1 ≡ ok s'
    → s'.total_units ≡ s.total_units + ite (text_dec (strip tenant_id) (strip b)) n 0
summarize-meter {m} r tenant_id dimension n timestamp now u free done b s s' before after =
    let t = (summarize_lem b none none m s before).0 in
    let t' =
      (summarize_lem b none none (meter tenant_id dimension (pos n) timestamp now m).1 s'
        after).0 in
    let d = meter_done tenant_id dimension n timestamp now m u done in
    let a =
      used-store_record (strip tenant_id) (strip dimension) (strip b) n (recorded_at timestamp now)
        m.records free (Reachable-IsOwned r) in
    t'
    ∙ ap (λ (x : Dict String Usage). used (strip b) none none none x) d
    ∙ a
    ∙ ap (λ (x : ℕ). x + ite (text_dec (strip tenant_id) (strip b)) n 0) (sym t)
