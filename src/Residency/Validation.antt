-- ===== src/Residency/Validation.antt =====
-- What a policy of src/project_mimic/data_residency.py allows, once it is set.
use project_mimic.Prelude.{
  le_text, member-sort_by, length, any, member, leb, Bool-cases, text_dec, strip, is_empty, ok, ℕ,
  String, ◌≡◌, refl, ap, ◌∙◌, subst, ◌≢◌, inl, inr, ite, Bool, true, false, not, ◌&&◌, ◌||◌, Option,
  some, List, [], ◌∷◌, arith,
}
use project_mimic.Dict.{Dict, lookup, insert, lookup-insert}
use project_mimic.Residency.{
  Residency, ResidencyPolicy, ResidencyVerdict, distinct, cleaned, normal_region, normal_regions,
  or_blank, resolved_default, policy_of, set_policy, validate,
}

member-distinct :
    (a : String) (xs : List String) → member text_dec a (distinct xs) ≡ member text_dec a xs
member-distinct a [] = refl
member-distinct a (x ∷ xs) =
    let ih = member-distinct a xs in
    let ihx = member-distinct x xs in
    elim (Bool-cases (member text_dec x (distinct xs))) [
      | inl again ↦ elim (text_dec x a) [
        | yes e ↦
            let m = ap (λ (y : String). member text_dec y (distinct xs)) e in
            ground (arith, again, e, m, ih)
        | no ne ↦ ground (arith, again, ne, ih)
      ]
      | inr new ↦ ground (arith, new, ih)
    ]

module _ (lower : String → String) where
  -- whether an item that is not blank names the region
  abbrev pub lists : String → List String → Bool
  lists r ss =
      any
        (λ (s : String).
          not (is_empty (strip s)) && ite (text_dec (normal_region lower s) r) true false)
        ss

  member-cleaned :
      (r : String) (ss : List String) → member text_dec r (cleaned lower ss) ≡ lists r ss
  member-cleaned r [] = refl
  member-cleaned r (s ∷ ss) = let ih = member-cleaned r ss in ground (arith, ih)

  member-normal_regions :
      (r : String) (ss : List String) → member text_dec r (normal_regions lower ss) ≡ lists r ss
  member-normal_regions r ss =
      member-sort_by text_dec le_text r (distinct (cleaned lower ss))
      ∙ member-distinct r (cleaned lower ss)
      ∙ member-cleaned r ss

  -- what a policy that is set writes
  abbrev IsRecorded : String → List String → Residency → ResidencyPolicy → Residency → Type 0
  IsRecorded tenant regions s p s' =
      (is_empty tenant ≡ false)
      × (p.allowed_regions ≡ normal_regions lower regions)
      × (member text_dec p.default_region p.allowed_regions ≡ true)
      × (s'.policies ≡ insert text_dec tenant p s.policies)

  set_policy-IsRecorded :
      (tenant_id : String) (regions : List String) (default : Option String) (now : ℕ)
      (s : Residency) (p : ResidencyPolicy)
      → (set_policy lower tenant_id regions default now s).0 ≡ ok p
      → IsRecorded
          (strip tenant_id)
          regions
          s
          p
          (set_policy lower tenant_id regions default now s).1
  unfolding set_policy
  set_policy-IsRecorded tenant_id regions default now s p done =
      let rs = normal_regions lower regions in
      let chosen = resolved_default lower default rs in
      elim (Bool-cases (is_empty (strip tenant_id))) [
        | inl blank ↦ absurd (ground (arith, blank, done))
        | inr named ↦ elim (Bool-cases (leb (length rs) 0)) [
          | inl bare ↦ absurd (ground (arith, named, bare, done))
          | inr full ↦ elim (Bool-cases (member text_dec chosen rs)) [
            | inr foreign ↦ absurd (ground (arith, named, full, foreign, done))
            | inl inside ↦
                let q =
                  policy_of (strip tenant_id) rs chosen now
                    (lookup text_dec (strip tenant_id) s.policies) in
                let e : q ≡ p = ground (arith, named, full, inside, done) in
                subst
                  (λ (x : ResidencyPolicy).
                    IsRecorded (strip tenant_id) regions s x
                      (set_policy lower tenant_id regions default now s).1)
                  e (named, refl, inside, rw (named, full, inside, set_policy) refl)
          ]
        ]
      ]

  -- After a policy is set, a region is allowed for its tenant just if it is left blank, when the
  -- default stands for it, or if an item of the policy's regions that is not blank names it; what is
  -- answered for a tenant of another name is as before.
  pub validate-set_policy :
      (tenant_id : String) (regions : List String) (default : Option String) (now : ℕ)
      (s : Residency) (p : ResidencyPolicy) (region : Option String) (v : ResidencyVerdict)
      (other : String) (region' : Option String)
      → (set_policy lower tenant_id regions default now s).0 ≡ ok p
      → validate lower tenant_id region (set_policy lower tenant_id regions default now s).1 ≡ ok v
      → strip tenant_id ≢ strip other
      → (v.allowed ≡ (is_empty (or_blank lower region) || lists (or_blank lower region) regions))
        × (validate lower other region' (set_policy lower tenant_id regions default now s).1
            ≡ validate lower other region' s)
  unfolding validate
  validate-set_policy tenant_id regions default now s p region v other region' done answered ne =
      let (named, allowed, inside, stored) =
        set_policy-IsRecorded tenant_id regions default now s p done in
      let at : (j : String)
          → lookup text_dec j (set_policy lower tenant_id regions default now s).1.policies
            ≡ ite (text_dec (strip tenant_id) j) (some p) (lookup text_dec j s.policies) =
        λ j.
          ap (λ (d : Dict String ResidencyPolicy). lookup text_dec j d) stored
          ∙ lookup-insert text_dec (strip tenant_id) j p s.policies in
      (
        (let here = at (strip tenant_id) in
            let known : lookup text_dec (strip tenant_id)
                  (set_policy lower tenant_id regions default now s).1.policies
                ≡ some p =
              ground (arith, here) in
            elim (Bool-cases (is_empty (or_blank lower region))) [
              | inl blank ↦ ground (arith, named, known, blank, answered, inside)
              | inr given ↦
                  let m =
                    ap (member text_dec (or_blank lower region)) allowed
                    ∙ member-normal_regions (or_blank lower region) regions in
                  ground (arith, named, known, given, answered, m)
            ]),
        let here = at (strip other) in
            let same : lookup text_dec (strip other)
                  (set_policy lower tenant_id regions default now s).1.policies
                ≡ lookup text_dec (strip other) s.policies =
              ground (arith, here, ne) in
            rw (same, validate) refl,
      )
