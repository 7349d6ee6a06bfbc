-- ===== src/Autoscaling/Bounds.antt =====
-- What `recommend` of src/project_mimic/predictive_autoscaling.py may answer.
use project_mimic.Prelude.{
  if_both, Result-cases, ltb, leb, Bool-cases, text_dec, ok, ℕ, ◌+◌, ◌≤◌, ◌<◌, min, max, String,
  ◌≡◌, refl, sym, ap, ◌∙◌, subst, inl, inr, true, not, ◌&&◌, Option, some, arith,
}
use project_mimic.Dict.{lookup, insert, lookup-insert, All-found}
use project_mimic.Json.{ℤ, pos, negsuc}
use project_mimic.Autoscaling.{
  Direction, hold, scale_up, scale_down, Limits, ScalingPolicy, Autoscaling, non_negative, normal,
  get_policy,
}
use project_mimic.Autoscaling.Signals.{SignalStatus, signal_status}
use project_mimic.Autoscaling.Recommend.{
  Decision, Recommendation, RecommendationReason, within_target_band, cooldown_active, is_hold,
  proposed, decided, held, bounded, is_cooling, answer, recommend, should_scale_up,
  should_scale_down,
}
use project_mimic.Autoscaling.Policies.{IsSound, get_policy-found, Reachable, Reachable-AllSound}

-- a decision within the limits, a step at most from where it starts
abbrev pub IsWithin : Limits → ℕ → Decision → Type 0
IsWithin l current d =
    (l.min_replicas ≤ d.desired)
    × (d.desired ≤ l.max_replicas)
    × (d.desired ≤ current + l.scale_up_step)
    × (current ≤ d.desired + l.scale_down_step)

decided-IsWithin :
    (l : Limits) (s : SignalStatus) (last : Option ℕ) (now current : ℕ)
    → l.min_replicas ≤ current
    → current ≤ l.max_replicas
    → IsWithin l current (decided l s last now current)
unfolding decided proposed
decided-IsWithin l s last now current low high =
    let P : Decision → Type 0 = IsWithin l current in
    let still : (why : RecommendationReason) → P (held current why) =
      λ why. (low, high, omega arith, omega arith) in
    let open' : P (proposed l s current) =
      if_both P (should_scale_up l s && ltb current l.max_replicas) _ _
        (omega (arith, low, high), omega arith, omega arith, omega (arith, high))
        (if_both P (should_scale_down l s && ltb l.min_replicas current) _ _
          (omega arith, omega (arith, low, high), omega (arith, low), omega arith)
          (still within_target_band)) in
    if_both P
      (not (is_hold (proposed l s current).direction) && is_cooling l.cooldown_seconds now last) _ _
      (still cooldown_active) open'

-- the policy that has noted a decision
abbrev noted : ScalingPolicy → Decision → ℕ → ScalingPolicy
noted p d now = record p {
  last_recommendation_at = some now;
  last_direction = some d.direction;
  last_desired_replicas = some d.desired;
}

-- what a call that recommends does
abbrev IsDone :
    (String → String)
    → String
    → ℕ
    → Autoscaling
    → ScalingPolicy
    → ℕ
    → Recommendation
    → Autoscaling
    → Type 0
IsDone lower policy_id now s p n r s' =
    let d =
      decided p.limits (signal_status p s) p.last_recommendation_at now (bounded p.limits n) in
    (answer p (signal_status p s) n d now ≡ r)
    × (lookup text_dec (normal lower policy_id) s'.tables.policies
        ≡ some (record p {
          last_recommendation_at = some now;
          last_direction = some d.direction;
          last_desired_replicas = some d.desired;
        }))

non_negative_lem : (name : String) (z : ℤ) (n : ℕ) → non_negative name z ≡ ok n → z ≡ pos n
non_negative_lem name (pos m) n h = ground (arith, h)
non_negative_lem name (negsuc m) n h = absurd (ground (arith, h))

module _ (lower : String → String) where
  recommend-IsDone :
      (policy_id tenant_id : String) (current : ℤ) (now : ℕ) (s : Autoscaling) (r : Recommendation)
      → (recommend lower policy_id tenant_id current now s).0 ≡ ok r
      → (p : ScalingPolicy) × (n : ℕ) × (get_policy lower policy_id tenant_id s ≡ ok p)
        × (current ≡ pos n)
        × IsDone lower policy_id now s p n r (recommend lower policy_id tenant_id current now s).1
  unfolding recommend
  recommend-IsDone policy_id tenant_id current now s r done =
      elim (Result-cases (get_policy lower policy_id tenant_id s)) [
        | inr (e, bad) ↦ absurd (ground (arith, bad, done))
        | inl (p, good) ↦ elim (Bool-cases (leb (signal_status p s).sample_count 0)) [
          | inl bare ↦ absurd (ground (arith, good, bare, done))
          | inr some' ↦ elim (Result-cases (non_negative "current_replicas" current)) [
            | inr (e, bad) ↦ absurd (ground (arith, good, some', bad, done))
            | inl (n, fine) ↦
                let k = normal lower policy_id in
                let d =
                  decided p.limits (signal_status p s) p.last_recommendation_at now
                    (bounded p.limits n) in
                let p' : ScalingPolicy = record p {
                  last_recommendation_at = some now;
                  last_direction = some d.direction;
                  last_desired_replicas = some d.desired;
                } in
                let li = lookup-insert text_dec k k p' s.tables.policies in
                let e : lookup text_dec k (insert text_dec k p' s.tables.policies) ≡ some p' =
                  ground (arith, li) in
                (
                  p,
                  n,
                  good,
                  non_negative_lem "current_replicas" current n fine,
                  (ground (arith, good, some', fine, done), rw (good, some', fine, recommend) e),
                )
          ]
        ]
      ]

  -- what a recommendation of `p` for `present` replicas has to be
  abbrev pub IsRecommended : ScalingPolicy → ℕ → Recommendation → Type 0
  IsRecommended p present r =
      let start = max p.limits.min_replicas (min p.limits.max_replicas present) in
      (r.bounded_current_replicas ≡ start)
      × (p.limits.min_replicas ≤ r.desired_replicas)
      × (r.desired_replicas ≤ p.limits.max_replicas)
      × (r.desired_replicas ≤ start + p.limits.scale_up_step)
      × (start ≤ r.desired_replicas + p.limits.scale_down_step)

  -- A recommendation of a service that calls have built is within the limits of its policy. It
  -- starts from the present replicas, brought within the limits, and is at most the policy's step
  -- up above and its step down below them.
  pub recommend-IsWithin :
      {s : Autoscaling}
      → Reachable lower s
      → (policy_id tenant_id : String) (present now : ℕ) (p : ScalingPolicy) (r : Recommendation)
      → get_policy lower policy_id tenant_id s ≡ ok p
      → (recommend lower policy_id tenant_id (pos present) now s).0 ≡ ok r
      → IsRecommended p present r
  recommend-IsWithin {s} reached policy_id tenant_id present now p r known done =
      let (q, n, good, given, (said, kept)) =
        recommend-IsDone policy_id tenant_id (pos present) now s r done in
      let same : q ≡ p = ground (arith, good, known) in
      let counted : n ≡ present = ground (arith, given) in
      let sound =
        All-found text_dec (λ (x : String × ScalingPolicy). IsSound x.0 x.1) s.tables.policies
          (normal lower policy_id) q (Reachable-AllSound lower reached)
          (get_policy-found lower policy_id tenant_id s q good) in
      let w =
        decided-IsWithin q.limits (signal_status q s) q.last_recommendation_at now
          (bounded q.limits n) (omega arith) (omega (arith, sound.in_order)) in
      subst (λ (x : ScalingPolicy). IsRecommended x present r) same
        (subst (λ (m : ℕ). IsRecommended q m r) counted
          (subst (λ (x : Recommendation). IsRecommended q n x) said (refl, w.0, w.1, w.2, w.3)))

  some-injective : {x y : ScalingPolicy} → some x ≡ some y → x ≡ y
  some-injective {x} {y} h = ground (arith, h)

  hold_of : (d : Direction) → is_hold d ≡ true → d ≡ hold
  hold_of hold h = refl
  hold_of scale_up h = absurd (ground (arith, h))
  hold_of scale_down h = absurd (ground (arith, h))

  decided_of_cooling :
      (l : Limits) (s : SignalStatus) (last : Option ℕ) (now current : ℕ)
      → is_cooling l.cooldown_seconds now last ≡ true
      → (decided l s last now current).direction ≡ hold
  unfolding decided
  decided_of_cooling l s last now current cooling =
      elim (Bool-cases (is_hold (proposed l s current).direction)) [
        | inl held' ↦ rw (held', decided) (hold_of (proposed l s current).direction held')
        | inr moves ↦ rw (moves, cooling, decided) refl
      ]

  -- Any recommendation, one to hold as well, starts the cooldown of its policy, if it has one: the
  -- next recommendation before the cooldown is over says to hold, whatever the replicas are.
  pub recommend-recommend :
      (policy_id tenant_id tenant_id' : String) (current current' : ℤ) (now now' : ℕ)
      (s : Autoscaling) (p : ScalingPolicy) (r r' : Recommendation)
      → get_policy lower policy_id tenant_id s ≡ ok p
      → now' < now + p.limits.cooldown_seconds
      → 0 < p.limits.cooldown_seconds
      → (recommend lower policy_id tenant_id current now s).0 ≡ ok r
      → (recommend lower policy_id tenant_id' current' now'
          (recommend lower policy_id tenant_id current now s).1).0
        ≡ ok r'
      → r'.direction ≡ hold
  recommend-recommend policy_id tenant_id tenant_id' current current' now now' s p r r' known soon
        cools done done' =
      let s1 = (recommend lower policy_id tenant_id current now s).1 in
      let (q, n, good, given, (said, kept)) =
        recommend-IsDone policy_id tenant_id current now s r done in
      let (q', n', good', given', (said', kept')) =
        recommend-IsDone policy_id tenant_id' current' now' s1 r' done' in
      let same : q ≡ p = ground (arith, good, known) in
      let found = get_policy-found lower policy_id tenant_id' s1 q' good' in
      let e : noted q
            (decided q.limits (signal_status q s) q.last_recommendation_at now (bounded q.limits n))
            now
          ≡ q' =
        some-injective (sym kept ∙ found) in
      let cooling : is_cooling q.limits.cooldown_seconds now' (some now) ≡ true =
        subst (λ (x : ScalingPolicy). is_cooling x.limits.cooldown_seconds now' (some now) ≡ true)
          (sym same) (ground (arith, soon, cools)) in
      let cooling' =
        subst
          (λ (x : ScalingPolicy).
            is_cooling x.limits.cooldown_seconds now' x.last_recommendation_at ≡ true)
          e cooling in
      sym (ap (λ (x : Recommendation). x.direction) said')
      ∙ decided_of_cooling q'.limits (signal_status q' s1) q'.last_recommendation_at now'
          (bounded q'.limits n') cooling'
