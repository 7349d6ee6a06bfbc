-- ===== src/Regions/Routing.antt =====
-- Where the requests of src/project_mimic/multi_region_control_plane.py go.
use project_mimic.Prelude.{text_dec, String, ◌≡◌, some}
use project_mimic.Dict.{Dict, lookup}
use project_mimic.Regions.{Region, ControlPlane}

-- the regions of a dictionary, as their invariant has them
Held : (String → String) → ControlPlane → Region → Type 0
Held lower p r = lookup text_dec r.region_id p.regions ≡ some r
