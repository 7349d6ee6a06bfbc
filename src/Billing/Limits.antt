-- ===== src/Billing/Limits.antt =====
-- What the check of a tenant's usage finds.
use project_mimic.Prelude.{
  Result-cases, count, count-append, ltb, if◌then◌else◌, Bool-cases, text_dec, strip, is_empty, ok,
  ℕ, ◌+◌, ◌-◌, String, ◌≡◌, refl, sym, ◌∙◌, subst, inl, inr, ite, Bool, false, ◌&&◌, Option, none,
  some, List, [], ◌∷◌, ◌++◌, arith,
}
use project_mimic.Dict.{Dict, lookup, insert, lookup-insert, insert-IsUnique, IsUnique}
use project_mimic.Json.{ℤ, pos, negsuc}
use project_mimic.Billing.{
  Plan, Subscription, Billing, Overage, normalize_from, signed, units_of, scan, measured,
  check_overage,
}

-- whether a limit, where there is one, is passed
abbrev pub passed : ℕ → Option ℕ → Bool
passed used none = false
passed used (some limit) = ltb limit used

abbrev pub units : Option ℕ → ℕ
units none = 0
units (some n) = n

-- What units an argument gives to a dimension: those of the last of the keys that stand for it,
-- which are the keys that are its name once the spaces around them are gone. A blank key stands for
-- no dimension, and where the normalisation returns only such a key has negative units.
abbrev pub given : String → Dict String ℤ → Option ℕ
given d [] = none
given d ((k, negsuc n) ∷ rest) = given d rest
given d ((k, pos n) ∷ rest) = elim (given d rest) [
  | some later ↦ some later
  | none ↦ if is_empty (strip k) then none else ite (text_dec (strip k) d) (some n) none
]

abbrev or_built : Option ℕ → Option ℕ → Option ℕ
or_built none built = built
or_built (some n) built = some n

normalize_from-given :
    (d : String) (built : Dict String ℕ) (u : Dict String ℤ) (r : Dict String ℕ)
    → normalize_from built u ≡ ok r
    → lookup text_dec d r ≡ or_built (given d u) (lookup text_dec d built)
unfolding normalize_from
normalize_from-given d built [] r e =
    sym (subst (λ x. lookup text_dec d built ≡ lookup text_dec d x) (ground (arith, e)) refl)
normalize_from-given d built ((k, negsuc n) ∷ rest) r e =
    normalize_from-given d built rest r (ground (arith, e))
normalize_from-given d built ((k, pos n) ∷ rest) r e = elim (Bool-cases (is_empty (strip k))) [
  | inl blank ↦
      let ih = normalize_from-given d built rest r (ground (arith, e)) in ground (arith, ih, blank)
  | inr named ↦
      let ih =
        normalize_from-given d (insert text_dec (strip k) n built) rest r (ground (arith, e)) in
      let li = lookup-insert text_dec (strip k) d n built in ground (arith, ih, named, li)
]

normalize_from-IsUnique :
    (built : Dict String ℕ) (d : Dict String ℤ) (r : Dict String ℕ)
    → normalize_from built d ≡ ok r
    → IsUnique text_dec built
    → IsUnique text_dec r
unfolding normalize_from
normalize_from-IsUnique built [] r e u = subst (IsUnique text_dec) (ground arith) u
normalize_from-IsUnique built ((k, negsuc n) ∷ rest) r e u =
    normalize_from-IsUnique built rest r (ground arith) u
normalize_from-IsUnique built ((k, pos n) ∷ rest) r e u = elim (Bool-cases (is_empty (strip k))) [
  | inl f ↦ normalize_from-IsUnique built rest r (ground arith) u
  | inr f ↦
      normalize_from-IsUnique (insert text_dec (strip k) n built) rest r (ground arith)
        (insert-IsUnique text_dec (strip k) n built u)
]

module _ (usage buffers : Dict String ℕ) (enforced : Bool) where
  scan-exceeded :
      (limits exceeded : Dict String ℕ) (blocked : List String) (d : String)
      → IsUnique text_dec limits
      → lookup text_dec d (scan usage buffers enforced limits exceeded blocked).0 ≡ (
          if passed (units_of d usage) (lookup text_dec d limits)
          then some (units_of d usage - units_of d limits)
          else lookup text_dec d exceeded)
  unfolding scan
  scan-exceeded [] exceeded blocked d u = refl
  scan-exceeded ((k, limit) ∷ rest) exceeded blocked d u =
      let used = units_of k usage in
      let li = lookup-insert text_dec k d (used - limit) exceeded in
      let ih1 = scan-exceeded rest exceeded blocked d in
      let ih2 =
        scan-exceeded rest (insert text_dec k (used - limit) exceeded)
          (if enforced && ltb (limit + units_of k buffers) used then blocked ++ k ∷ [] else blocked)
          d in
      ground arith

  scan-blocked :
      (limits exceeded : Dict String ℕ) (blocked : List String) (d : String)
      → IsUnique text_dec limits
      → count text_dec d (scan usage buffers enforced limits exceeded blocked).1
        ≡ count text_dec d blocked
          + (if enforced
                && passed (units_of d usage) (lookup text_dec d limits)
                && ltb (units_of d limits + units_of d buffers) (units_of d usage)
              then 1
              else 0)
  unfolding scan
  scan-blocked [] exceeded blocked d u = ground arith
  scan-blocked ((k, limit) ∷ rest) exceeded blocked d u =
      let used = units_of k usage in
      let ca = count-append text_dec d blocked (k ∷ []) in
      let ih1 = scan-blocked rest exceeded blocked d in
      let ih2 = scan-blocked rest (insert text_dec k (used - limit) exceeded) blocked d in
      let ih3 =
        scan-blocked rest (insert text_dec k (used - limit) exceeded) (blocked ++ k ∷ []) d in
      ground arith

-- A dimension is exceeded exactly when its usage is above its limit, by the difference, and stands
-- once among the blocked dimensions when, moreover, its usage is above limit and buffer together
-- and the plan is enforced; otherwise not at all.
abbrev pub Reports : Bool → String → Option ℕ → Option ℕ → Option ℕ → Overage → Type 0
Reports enforced d used limit buffer o =
    (lookup text_dec d o.exceeded_dimensions
      ≡ (if passed (units used) limit then some (units used - units limit) else none))
    × (count text_dec d o.blocked_dimensions ≡ (
        if enforced && passed (units used) limit && ltb (units limit + units buffer) (units used)
        then 1
        else 0))

measured-Reports :
    (tenant : String) (s : Subscription) (hard : Bool) (usage limits buffers : Dict String ℕ)
    (d : String)
    → IsUnique text_dec limits
    → Reports
        (s.overage_protection && hard)
        d
        (lookup text_dec d usage)
        (lookup text_dec d limits)
        (lookup text_dec d buffers)
        (measured tenant s hard usage limits buffers)
unfolding measured
measured-Reports tenant s hard usage limits buffers d unique =
    let enforced = s.overage_protection && hard in
    let blocked = scan-blocked usage buffers enforced limits [] [] d unique in
    let exceeded = scan-exceeded usage buffers enforced limits [] [] d unique in
    (exceeded, blocked ∙ omega arith)

-- the same for the units as they were given
measured-given :
    (tenant : String) (s : Subscription) (hard : Bool) (used included buffer : Dict String ℤ)
    (usage limits buffers : Dict String ℕ) (d : String)
    → normalize_from [] used ≡ ok usage
    → normalize_from [] included ≡ ok limits
    → normalize_from [] buffer ≡ ok buffers
    → Reports
        (s.overage_protection && hard)
        d
        (given d used)
        (given d included)
        (given d buffer)
        (measured tenant s hard usage limits buffers)
measured-given tenant s hard used included buffer usage limits buffers d eu el eb =
    let of_given = λ (u : Dict String ℤ) (r : Dict String ℕ) (e : normalize_from [] u ≡ ok r).
      normalize_from-given d [] u r e ∙ or_none (given d u) in
    let enforced = s.overage_protection && hard in
    let o = measured tenant s hard usage limits buffers in
    subst (λ x. Reports enforced d x (given d included) (given d buffer) o) (of_given used usage eu)
      (subst (λ x. Reports enforced d (lookup text_dec d usage) x (given d buffer) o)
        (of_given included limits el)
        (subst (λ x. Reports enforced d (lookup text_dec d usage) (lookup text_dec d limits) x o)
          (of_given buffer buffers eb)
          (measured-Reports tenant s hard usage limits buffers d
            (normalize_from-IsUnique [] included limits el tt))))
  where
    or_none : (x : Option ℕ) → or_built x none ≡ x
    or_none none = refl
    or_none (some n) = refl

-- When a tenant is subscribed to a known plan and the check of its usage returns, the answer
-- reports every dimension rightly. The usage of a dimension is what the argument gives it under the
-- last key that is its name once stripped, 0 if there is none; its limit and its buffer are those
-- of the plan, in the same way. The dimension is exceeded exactly when it has a limit and its usage
-- is above it, by the difference, and it stands once among the blocked dimensions when, moreover,
-- its usage is above limit and buffer together, the plan's limits are hard and the subscription has
-- overage protection; otherwise not at all.
pub check_overage_lem :
    (tenant : String) (usage : Dict String ℤ) (b : Billing) (s : Subscription) (p : Plan)
    (o : Overage) (d : String)
    → lookup text_dec (strip tenant) b.subscriptions ≡ some s
    → lookup text_dec s.plan_id b.plans ≡ some p
    → check_overage tenant usage b ≡ ok o
    → Reports
        (s.overage_protection && p.hard_limits)
        d
        (given d usage)
        (given d (signed p.included_units))
        (given d (signed p.overage_buffer_units))
        o
unfolding check_overage
check_overage_lem tenant usage b s p o d subscribed known e =
    let included = signed p.included_units in
    let buffer = signed p.overage_buffer_units in
    elim (Result-cases (normalize_from [] usage)) [
      | inr (x, f) ↦ absurd (ground arith)
      | inl (us, f) ↦ elim (Result-cases (normalize_from [] included)) [
        | inr (x, g) ↦ absurd (ground arith)
        | inl (limits, g) ↦ elim (Result-cases (normalize_from [] buffer)) [
          | inr (x, h) ↦ absurd (ground arith)
          | inl (buffers, h) ↦
              let same : measured (strip tenant) s p.hard_limits us limits buffers ≡ o =
                ground arith in
              subst
                (Reports (s.overage_protection && p.hard_limits) d (given d usage)
                  (given d included) (given d buffer))
                same
                (measured-given (strip tenant) s p.hard_limits usage included buffer us limits
                  buffers d f g h)
        ]
      ]
    ]
