-- ===== src/Models.antt =====
-- src/project_mimic/model_registry.py: the versions of models, and the version that each rollout
-- channel has. `lower` is a parameter for Python's `str.lower`.
pub mod Channels
use project_mimic.Prelude.{
  All-weaken, if_both, le_text, sort_by, place_by, keep-sort_by, length-sort_by, All-sort_by,
  IsSortedBy, sort_by-IsSortedBy, member-sort_by, Result-cases, round_div, ite-elim, length,
  length-append, replicate, keep, any, take, drop, All, count, member, without, remove,
  count-append, count-without, count-remove_ne, count-remove_self, member-count, not-member-count,
  ltb, leb, ◌==◌, if◌then◌else◌, is_some, Bool-cases, Option-cases, ltb→lt, leb→le, le→leb, lt→ltb,
  text_dec, strip, joined, is_empty, strip-strip, Exception, value_error, key_error, runtime_error,
  session_expired, invalid_transition, access_denied, checkpoint_recovery, Result, ok, err, Action,
  pure, raise, lift, gets, or_raise, raise_if, modify, ◌>>=◌, ◌>>◌, ℕ, zero, suc, ◌+◌, ◌-◌, ◌*◌,
  ◌/◌, ◌%◌, ◌^◌, ◌≤◌, ◌<◌, min, max, String, ◌≡◌, refl, sym, ap, ◌∙◌, subst, ◌≢◌, ◌↔◌, ◌⊎◌, inl,
  inr, ite, Bool, true, false, not, ◌&&◌, ◌||◌, Option, none, some, List, [], ◌∷◌, ◌++◌, map, arith,
  ℕ_discrete,
}
use project_mimic.Dict.{Dict, lookup, insert}
use project_mimic.Json.{JsonFields}

pub record ModelVersion : Type 0 where
  pub model_id : String
  pub version : String
  pub artifact_uri : String
  pub metadata : JsonFields
  pub created_at : ℕ

pub record Assignment : Type 0 where
  pub channel : String
  pub model_id : String
  pub version : String
  pub artifact_uri : String
  pub updated_at : ℕ

pub record ModelTables : Type 0 where
  pub versions : Dict String ModelVersion
  pub channels : Dict String (Option Assignment)

pub record ModelRegistry : Type 0 where
  pub tables : ModelTables
  pub saved : Option ModelTables

-- ROLLOUT_CHANNELS
abbrev pub rollout_channels : List String
rollout_channels = "dev" ∷ "canary" ∷ "prod" ∷ []

abbrev unassigned : List String → Dict String (Option Assignment)
unassigned [] = []
unassigned (c ∷ cs) = (c, none) ∷ unassigned cs

-- the assignments of the channels that there are, where the store has one
abbrev restored_channels :
    Dict String (Option Assignment) → List String → Dict String (Option Assignment)
restored_channels saved [] = []
restored_channels saved (c ∷ cs) =
    (c, elim (lookup text_dec c saved) [ none ↦ none | some a ↦ a ]) ∷ restored_channels saved cs

-- `__init__` and `_restore`, from what the store has
unfoldable pub new : Option ModelTables → ModelRegistry
new none = record {
  tables = record { versions = []; channels = unassigned rollout_channels };
  saved = none;
}
new (some t) = record {
  tables = record {
    versions = t.versions;
    channels = restored_channels t.channels rollout_channels;
  };
  saved = some t;
}

-- `_persist`
abbrev persist : ModelTables → ModelRegistry
persist t = record { tables = t; saved = some t }

-- `_version_key`
abbrev pub version_key : String → String → String
version_key model_id version = joined model_id (joined "::" version)

unfoldable pub register_version :
    String → String → String → Option JsonFields → ℕ → Action ModelRegistry ModelVersion
register_version model_id version artifact_uri metadata now s =
    let k = version_key (strip model_id) (strip version) in
    if is_empty (strip model_id)
    then (err (value_error "model_id must not be empty"), s)
    else if is_empty (strip version)
    then (err (value_error "version must not be empty"), s)
    else if is_empty (strip artifact_uri)
    then (err (value_error "artifact_uri must not be empty"), s)
    else elim (lookup text_dec k s.tables.versions) [
      | some v ↦ (err (value_error "model version already registered"), s)
      | none ↦
          let v : ModelVersion = record {
            model_id = strip model_id;
            version = strip version;
            artifact_uri = strip artifact_uri;
            metadata = elim metadata [ none ↦ JsonFields.end | some m ↦ m ];
            created_at = now;
          } in
          (ok v, persist (record s.tables { versions = insert text_dec k v s.tables.versions }))
    ]

abbrev of_model : Option String → Dict String ModelVersion → List ModelVersion
of_model model_id [] = []
of_model model_id ((k, v) ∷ d) =
    let rest = of_model model_id d in
    let wanted : Bool = elim model_id [
      | none ↦ true
      | some m ↦ ite (text_dec v.model_id m) true false
    ] in
    if wanted then v ∷ rest else rest

unfoldable pub list_versions : Option String → ModelRegistry → List ModelVersion
list_versions model_id s =
    sort_by (λ x y. leb x.created_at y.created_at) (of_model model_id s.tables.versions)

-- the assignment of a version to a channel
abbrev pub assigned : String → ModelVersion → ℕ → Assignment
assigned channel v now = record {
  channel = channel;
  model_id = v.model_id;
  version = v.version;
  artifact_uri = v.artifact_uri;
  updated_at = now;
}

unfoldable pub promote :
    (String → String) → String → String → String → ℕ → Action ModelRegistry Assignment
promote lower channel model_id version now s =
    let c = lower (strip channel) in
    let k = version_key (strip model_id) (strip version) in
    if not (member text_dec c rollout_channels)
    then (err (value_error (joined "unsupported channel: " channel)), s)
    else elim (lookup text_dec k s.tables.versions) [
      | none ↦ (err (key_error k), s)
      | some v ↦ (
        ok (assigned c v now),
        persist (record s.tables {
          channels = insert text_dec c (some (assigned c v now)) s.tables.channels;
        }),
      )
    ]

unfoldable pub list_channels : ModelRegistry → Dict String (Option Assignment)
list_channels s = s.tables.channels
