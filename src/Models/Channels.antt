-- ===== src/Models/Channels.antt =====
-- What the rollout channels of src/project_mimic/model_registry.py point to.
use project_mimic.Prelude.{
  All-weaken, if_both, All, member, Option-cases, text_dec, strip, is_empty, Result, ℕ, String, ◌≡◌,
  refl, subst, inl, inr, not, Option, none, some, arith,
}
use project_mimic.Dict.{Dict, lookup, insert, lookup-insert, All-found, All-insert}
use project_mimic.Json.{JsonFields}
use project_mimic.Models.{
  ModelVersion, Assignment, ModelRegistry, rollout_channels, new, register_version, promote,
  assigned, version_key,
}

-- a channel is free, or has a version that is registered
abbrev IsAssigned : Dict String ModelVersion → String × Option Assignment → Type 0
IsAssigned versions (c, none) = Unit
IsAssigned versions (c, some a) =
    (k : String) × (v : ModelVersion) × (lookup text_dec k versions ≡ some v)
    × (assigned c v a.updated_at ≡ a)

abbrev AllAssigned : ModelRegistry → Type 0
AllAssigned s = All (IsAssigned s.tables.versions) s.tables.channels

IsAssigned-insert :
    (k : String) (v : ModelVersion) (versions : Dict String ModelVersion)
    (x : String × Option Assignment)
    → lookup text_dec k versions ≡ none
    → IsAssigned versions x
    → IsAssigned (insert text_dec k v versions) x
IsAssigned-insert k v versions (c, none) free h = tt
IsAssigned-insert k v versions (c, some a) free (j, w, found, e) =
    let li = lookup-insert text_dec k j v versions in
    elim (text_dec k j) [
      | yes same ↦ absurd (
          let f = subst (λ (i : String). lookup text_dec i versions ≡ none) same free in
          ground (arith, f, found))
      | no other ↦ (j, w, ground (arith, li, other, found), e)
    ]

AllAssigned-register_version :
    (model_id version artifact_uri : String) (metadata : Option JsonFields) (now : ℕ)
    (s : ModelRegistry)
    → AllAssigned s
    → AllAssigned (register_version model_id version artifact_uri metadata now s).1
unfolding register_version
AllAssigned-register_version model_id version artifact_uri metadata now s a =
    let P : Result ModelVersion × ModelRegistry → Type 0 = λ x. AllAssigned x.1 in
    let k = version_key (strip model_id) (strip version) in
    if_both P (is_empty (strip model_id)) _ _ a (
      if_both P (is_empty (strip version)) _ _ a (
        if_both P (is_empty (strip artifact_uri)) _ _ a
          (elim (Option-cases (lookup text_dec k s.tables.versions)) [
            | inr (v, taken) ↦ rw taken a
            | inl free ↦ rw free (
                All-weaken s.tables.channels
                  (λ x h. IsAssigned-insert k _ s.tables.versions x free h) a)
          ])))

AllAssigned-promote :
    (lower : String → String) (channel model_id version : String) (now : ℕ) (s : ModelRegistry)
    → AllAssigned s
    → AllAssigned (promote lower channel model_id version now s).1
unfolding promote
AllAssigned-promote lower channel model_id version now s a =
    let P : Result Assignment × ModelRegistry → Type 0 = λ x. AllAssigned x.1 in
    let c = lower (strip channel) in
    let k = version_key (strip model_id) (strip version) in
    if_both P (not (member text_dec c rollout_channels)) _ _ a
      (elim (Option-cases (lookup text_dec k s.tables.versions)) [
        | inl missing ↦ rw missing a
        | inr (v, found) ↦ rw found (
            All-insert text_dec (IsAssigned s.tables.versions) c (some (assigned c v now))
              s.tables.channels (k, v, found, refl) a)
      ])

-- what calls on a new registry reach
pub data Reachable (lower : String → String) : ModelRegistry → Type 0 where
  begin : Reachable lower (new none)
  registers :
      {s : ModelRegistry} (model_id version artifact_uri : String) (metadata : Option JsonFields)
      (now : ℕ)
      → Reachable lower s
      → Reachable lower (register_version model_id version artifact_uri metadata now s).1
  promotes :
      {s : ModelRegistry} (channel model_id version : String) (now : ℕ)
      → Reachable lower s
      → Reachable lower (promote lower channel model_id version now s).1

Reachable-AllAssigned :
    (lower : String → String) {s : ModelRegistry} → Reachable lower s → AllAssigned s
unfolding new
Reachable-AllAssigned lower begin = (tt, (tt, (tt, tt)))
Reachable-AllAssigned lower (registers a b c d e r) =
    AllAssigned-register_version a b c d e _ (Reachable-AllAssigned lower r)
Reachable-AllAssigned lower (promotes a b c d r) =
    AllAssigned-promote lower a b c d _ (Reachable-AllAssigned lower r)

-- In a registry that calls on a new one reach, the assignment of a channel is that of a version that
-- is registered: it has that version's model, name and artifact.
pub channels-assigned :
    (lower : String → String) (s : ModelRegistry) (c : String) (a : Assignment)
    → Reachable lower s
    → lookup text_dec c s.tables.channels ≡ some (some a)
    → (k : String) × (v : ModelVersion) × (lookup text_dec k s.tables.versions ≡ some v)
      × (assigned c v a.updated_at ≡ a)
channels-assigned lower s c a r h =
    All-found text_dec (IsAssigned s.tables.versions) s.tables.channels c (some a)
      (Reachable-AllAssigned lower r) h
