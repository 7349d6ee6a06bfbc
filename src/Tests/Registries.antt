-- ===== src/Tests/Registries.antt =====
-- A run of the model registry: src/project_mimic/model_registry.py.
use project_mimic.Prelude.{text_dec, strip, String, ◌≡◌, refl, none, some}
use project_mimic.Dict.{lookup}
use project_mimic.Models.{
  ModelVersion, Assignment, ModelRegistry, new, register_version, promote, assigned,
}
use project_mimic.Models.Channels.{begin, registers, promotes, channels-assigned}

abbrev same : String → String
same s = s

abbrev promoted : ModelRegistry
promoted =
    (promote same "prod" "clicks" "1" 6
      (register_version "clicks" " 1" "s3://clicks" none 5 (new none)).1).1

abbrev in_production : Assignment
in_production = record {
  channel = "prod";
  model_id = "clicks";
  version = "1";
  artifact_uri = "s3://clicks";
  updated_at = 6;
}

channels-assigned_example :
    (k : String) × (v : ModelVersion) × (lookup text_dec k promoted.tables.versions ≡ some v)
    × (assigned "prod" v 6 ≡ in_production)
unfolding text_dec strip register_version promote new
channels-assigned_example =
    channels-assigned same promoted "prod" in_production
      (promotes "prod" "clicks" "1" 6 (registers "clicks" " 1" "s3://clicks" none 5 begin)) refl
