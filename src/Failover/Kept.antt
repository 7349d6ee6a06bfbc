-- ===== src/Failover/Kept.antt =====
-- The policies that `upsert_policy` of src/project_mimic/regional_failover.py writes.
use project_mimic.Prelude.{
  sort_by, All-sort_by, Result-cases, All, ◌==◌, Bool-cases, text_dec, is_empty, ok, ℕ, String, ◌≡◌,
  refl, subst, inl, inr, Bool, ◌&&◌, Option, none, some, [], ◌∷◌, arith,
}
use project_mimic.Dict.{Dict, lookup, insert, All-insert}
use project_mimic.Json.{ℤ, pos, negsuc}
use project_mimic.Regions.{normal}
use project_mimic.Failover.{
  FailoverPolicy, Failover, gather, shares, by_key, sum_of, normalize_read_distribution,
  ensure_regions_exist,
}
use project_mimic.Failover.Changes.{keys, has, policy_of}
use project_mimic.Failover.Operations.{written_region, upsert_policy}
use project_mimic.Failover.Cycle.{IsKept}

module _ (lower : String → String)
    (settled : (s : String) → normal lower (normal lower s) ≡ normal lower s) where
  abbrev HasNormalId : String × ℕ → Type 0
  HasNormalId x = normal lower x.0 ≡ x.0

  gather-HasNormalId :
      (built : Dict String ℕ) (d : Dict String ℤ) (out : Dict String ℕ)
      → All HasNormalId built
      → gather lower built d ≡ ok out
      → All HasNormalId out
  unfolding gather
  gather-HasNormalId built [] out a h =
      let same : built ≡ out = ground (arith, h) in subst (All HasNormalId) same a
  gather-HasNormalId built ((k, negsuc n) ∷ d) out a h =
      absurd (elim (Bool-cases (is_empty (normal lower k))) [
        | inl blank ↦ ground (arith, blank, h)
        | inr named ↦ ground (arith, named, h)
      ])
  gather-HasNormalId built ((k, pos n) ∷ d) out a h =
      elim (Bool-cases (is_empty (normal lower k))) [
        | inl blank ↦ absurd (ground (arith, blank, h))
        | inr named ↦
            gather-HasNormalId (insert text_dec (normal lower k) n built) d out
              (All-insert text_dec HasNormalId (normal lower k) n built (settled k) a)
              (ground (arith, named, h))
      ]

  shares-keys :
      (total : ℕ) (d : Dict String ℕ)
      → All HasNormalId d
      → All (λ (j : String). normal lower j ≡ j) (keys (shares total d))
  unfolding shares
  shares-keys total [] a = tt
  shares-keys total ((k, n) ∷ d) a = (a.0, shares-keys total d a.1)

  normalize_read_distribution-keys :
      (d : Dict String ℤ) (out : Dict String ℕ)
      → normalize_read_distribution lower d ≡ ok out
      → All (λ (j : String). normal lower j ≡ j) (keys out)
  unfolding normalize_read_distribution
  normalize_read_distribution-keys [] out h = absurd (ground (arith, h))
  normalize_read_distribution-keys (x ∷ d) out h = elim (Result-cases (gather lower [] (x ∷ d))) [
    | inr (e, bad) ↦ absurd (ground (arith, bad, h))
    | inl (built, good) ↦ elim (Bool-cases (sum_of built == 0)) [
      | inl idle ↦ absurd (ground (arith, good, idle, h))
      | inr some' ↦
          let same : shares (sum_of built) (sort_by by_key built) ≡ out =
            ground (arith, good, some', h) in
          subst (λ (o : Dict String ℕ). All (λ (j : String). normal lower j ≡ j) (keys o)) same
            (shares-keys (sum_of built) (sort_by by_key built)
              (All-sort_by by_key HasNormalId built (gather-HasNormalId [] (x ∷ d) built tt good)))
    ]
  ]

  -- A policy that `upsert_policy` returns is kept under its id.
  upsert_policy-IsKept :
      (policy_id primary secondary : String) (percent : Dict String ℤ)
      (write_region : Option String) (auto : Bool) (now : ℕ) (f : Failover) (p : FailoverPolicy)
      → (upsert_policy lower policy_id primary secondary percent write_region auto now f).0 ≡ ok p
      → IsKept lower (normal lower policy_id) p
  unfolding upsert_policy
  upsert_policy-IsKept policy_id primary secondary percent write_region auto now f p h =
      let k = normal lower policy_id in
      let first = normal lower primary in
      let second = normal lower secondary in
      let written = written_region lower write_region first in
      elim (Bool-cases (is_empty k)) [
        | inl blank ↦ absurd (ground (arith, blank, h))
        | inr a ↦ elim (Bool-cases (is_empty first)) [
          | inl blank ↦ absurd (ground (arith, a, blank, h))
          | inr b ↦ elim (Bool-cases (is_empty second)) [
            | inl blank ↦ absurd (ground (arith, a, b, blank, h))
            | inr c ↦ elim (Result-cases (normalize_read_distribution lower percent)) [
              | inr (e, bad) ↦ absurd (ground (arith, a, b, c, bad, h))
              | inl (spread, good) ↦
                  elim (Bool-cases
                    (has first spread && (has second spread && has written spread))) [
                      | inr out ↦ absurd (ground (arith, a, b, c, good, out, h))
                      | inl inside ↦
                          elim (Result-cases (ensure_regions_exist lower spread f.control_plane)) [
                            | inr (e, bad) ↦ absurd (ground (arith, a, b, c, good, inside, bad, h))
                            | inl (u, there) ↦
                                let same : policy_of k first second spread written auto now
                                      (lookup text_dec k f.tables.policies)
                                    ≡ p =
                                  ground (arith, a, b, c, good, inside, there, h) in
                                subst (IsKept lower k) same (
                                  made k first second spread written auto now
                                    (lookup text_dec k f.tables.policies) (settled policy_id)
                                    (normalize_read_distribution-keys percent spread good))
                          ]
                    ]
            ]
          ]
        ]
      ]
    where
      made :
          (k first second : String) (spread : Dict String ℕ) (written : String) (auto : Bool)
          (now : ℕ) (o : Option FailoverPolicy)
          → normal lower k ≡ k
          → All (λ (j : String). normal lower j ≡ j) (keys spread)
          → IsKept lower k (policy_of k first second spread written auto now o)
      made k first second spread written auto now none n a = record {
        own_id = refl;
        normal_id = n;
        normal_keys = a;
      }
      made k first second spread written auto now (some q) n a = record {
        own_id = refl;
        normal_id = n;
        normal_keys = a;
      }
