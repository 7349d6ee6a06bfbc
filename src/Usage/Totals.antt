-- ===== src/Usage/Totals.antt =====
-- What the summaries of src/project_mimic/usage_metering.py add up, and whose units they are.
use project_mimic.Prelude.{
  if◌then◌else◌, Bool-cases, text_dec, strip, is_empty, ok, ℕ, ◌+◌, String, ◌≡◌, sym, ap, ◌∙◌, inl,
  inr, ite, Bool, true, false, ◌&&◌, Option, none, some, [], ◌∷◌, arith,
}
use project_mimic.Dict.{Dict, lookup, insert, lookup-insert}
use project_mimic.Json.{ℤ}
use project_mimic.Usage.{Usage, Metering, Summary, within, units_at, summed, summarize}

-- the units of a tenant's records in a period, of one dimension or of all
abbrev pub used : String → Option String → Option ℤ → Option ℤ → Dict String Usage → ℕ
used tenant dimension start end [] = 0
used tenant dimension start end ((k, u) ∷ d) =
    let rest = used tenant dimension start end d in
    let mine = ite (text_dec u.tenant_id tenant) true false && within start end u.day_bucket in
    let counts : Bool = elim dimension [
      | none ↦ true
      | some t ↦ ite (text_dec u.dimension t) true false
    ] in
    if mine && counts then u.units + rest else rest

abbrev pub sum_of : Dict String ℕ → ℕ
sum_of [] = 0
sum_of ((k, n) ∷ d) = n + sum_of d

sum_of-insert :
    (k : String) (n : ℕ) (d : Dict String ℕ)
    → sum_of (insert text_dec k (units_at k d + n) d) ≡ sum_of d + n
sum_of-insert k n [] = omega arith
sum_of-insert k n ((j, w) ∷ d) = ground (arith, sum_of-insert k n d)

units_at-insert :
    (k j : String) (n : ℕ) (d : Dict String ℕ)
    → units_at j (insert text_dec k (units_at k d + n) d) ≡ units_at j d + ite (text_dec k j) n 0
units_at-insert k j n d =
    let li = lookup-insert text_dec k j (units_at k d + n) d in
    elim (text_dec k j) [
      | yes same ↦
          let at = ap (λ (x : String). lookup text_dec x d) same in ground (arith, li, same, at)
      | no other ↦ ground (arith, li, other)
    ]

summed_lem :
    (tenant : String) (start end : Option ℤ) (dims : Dict String ℕ) (total : ℕ)
    (d : Dict String Usage)
    → ((summed tenant start end dims total d).1 ≡ total + used tenant none start end d)
      × (sum_of (summed tenant start end dims total d).0
          ≡ sum_of dims + used tenant none start end d)
      × ((j : String)
          → units_at j (summed tenant start end dims total d).0
            ≡ units_at j dims + used tenant (some j) start end d)
unfolding summed
summed_lem tenant start end dims total [] = (omega arith, omega arith, λ j. omega arith)
summed_lem tenant start end dims total ((k, u) ∷ d) =
    let more = insert text_dec u.dimension (units_at u.dimension dims + u.units) dims in
    let counted = summed_lem tenant start end more (total + u.units) d in
    let skipped = summed_lem tenant start end dims total d in
    let s = sum_of-insert u.dimension u.units dims in
    elim (Bool-cases
      (ite (text_dec u.tenant_id tenant) true false && within start end u.day_bucket)) [
        | inl mine ↦
            let a = counted.0 in
            let b = counted.1 in
            rw mine (
              ground (arith, a),
              ground (arith, b, s),
              λ j.
                  let e = counted.2 j in
                  let at = units_at-insert u.dimension j u.units dims in ground (arith, e, at),
            )
        | inr other ↦
            let a = skipped.0 in
            let b = skipped.1 in
            rw other
              (ground (arith, a), ground (arith, b), λ j. let e = skipped.2 j in ground (arith, e))
      ]

-- A summary's total is the sum of the units of the tenant's records in the period, and so is the sum
-- of its dimensions; each dimension has the units of the records of that dimension.
pub summarize_lem :
    (tenant_id : String) (start end : Option ℤ) (m : Metering) (s : Summary)
    → summarize tenant_id start end m ≡ ok s
    → (s.total_units ≡ used (strip tenant_id) none start end m.records)
      × (sum_of s.dimensions ≡ s.total_units)
      × ((dimension : String)
          → units_at dimension s.dimensions
            ≡ used (strip tenant_id) (some dimension) start end m.records)
unfolding summarize
summarize_lem tenant_id start end m s done =
    let l = summed_lem (strip tenant_id) start end [] 0 m.records in
    elim (Bool-cases (is_empty (strip tenant_id))) [
      | inl blank ↦ absurd (ground (arith, blank, done))
      | inr named ↦
          let total : (summed (strip tenant_id) start end [] 0 m.records).1 ≡ s.total_units =
            ground (arith, named, done) in
          let dims : (summed (strip tenant_id) start end [] 0 m.records).0 ≡ s.dimensions =
            ground (arith, named, done) in
          let a = l.0 in
          let b = l.1 in
          (
            ground (arith, total, a),
            ap sum_of (sym dims) ∙ ground (arith, total, a, b),
            λ j. let e = l.2 j in let same = ap (units_at j) dims in ground (arith, same, e),
          )
    ]
