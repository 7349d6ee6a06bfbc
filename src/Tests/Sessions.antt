-- ===== src/Tests/Sessions.antt =====
-- Runs of an episode and of the session registry: src/project_mimic/environment.py,
-- src/project_mimic/session_lifecycle.py and the step handler of src/project_mimic/api.py.
use project_mimic.Prelude.{
  text_dec, strip, invalid_transition, access_denied, ok, err, ◌≡◌, refl, true, false, none, some,
  List, [], ◌∷◌, arith,
}
use project_mimic.Json.{end, null, truthy, get_field}
use project_mimic.Dict.{lookup}
use project_mimic.Environment.{Env, UiAction, click, wait}
use project_mimic.Environment as episodes
use project_mimic.Environment.Episode.{IsCounted, play, play_of_new, play_is_done}
use project_mimic.Session.Types.{running, completed, failed, SessionRecord, SessionRegistry}
use project_mimic.Session.{create, get, reset, get_record, checkpoint_of}
use project_mimic.Session.Operations.{restore, rollback_to_checkpoint, move_to, scavenge_expired}
use project_mimic.Session.Handlers.{step_session, escapes, status_of}
use project_mimic.Session.Status.{Keeps}
use project_mimic.Session.History.{here, next, creates, moves, scavenges, Reach-Safe}
use project_mimic.Session.Access.{
  rollback_restores, other_tenant_refused, get_record_late, step_completed_escapes,
}

abbrev pausing : UiAction
pausing = record {
  action_type = wait;
  target = none;
  x = none;
  y = none;
  text = none;
  wait_ms = none;
  metadata = end;
}

abbrev actions : List UiAction
actions = pausing ∷ pausing ∷ []

abbrev episode : Env
episode = record {
  goal = "form";
  step_index = 0;
  status = "running";
  done = false;
  history = [];
  last_url = null;
  max_steps = 2;
}

abbrev ended : Env
ended = record episode { done = true; status = "completed" }

episode-new : episodes.new "form" 2 ≡ ok episode
unfolding episodes.new
episode-new = refl

play_of_new_example :
    IsCounted (play strip actions episode) × ((play strip actions episode).step_index ≡ 2)
unfolding episodes.goal_completed truthy get_field
play_of_new_example = play_of_new strip "form" 2 episode actions episode-new

play_is_done_example : (play strip actions episode).done ≡ true
play_is_done_example = play_is_done strip "form" 2 episode actions episode-new (omega arith)

abbrev no_sessions : SessionRegistry
no_sessions = record { ttl = 60; records = []; checkpoints = []; metadata = [] }

abbrev one_session : SessionRegistry
one_session = (create "form" 2 "tenant" "id" 0 no_sessions).1

abbrev one_ended : SessionRegistry
one_ended = (move_to completed "id" none 5 one_session).1

Reach-Safe_example : Keeps no_sessions (scavenge_expired 99 one_ended).1
unfolding text_dec
Reach-Safe_example =
    Reach-Safe strip
      (next (next (next here (creates "form" 2 "tenant" "id" 0 refl)) (moves completed "id" none 5))
        (scavenges 99))
      tt

abbrev live : SessionRecord
live = record {
  env = episode;
  status = running;
  created_at = 0;
  last_accessed_at = 0;
  expires_at = 60;
  tenant_id = "tenant";
}

abbrev held : SessionRecord → SessionRegistry
held r = record {
  ttl = 60;
  records = ("id", r) ∷ [];
  checkpoints = ("id", checkpoint_of live) ∷ [];
  metadata = [];
}

abbrev seen : episodes.Observation
seen = record {
  step_index = 0;
  goal = "form";
  status = "running";
  url = none;
  last_event = "restore";
  history_length = 0;
  max_steps = 2;
}

abbrev rolled_back : SessionRecord
rolled_back = record live { last_accessed_at = 5; expires_at = 65 }

abbrev strayed : SessionRegistry
strayed = held (record live { env = ended })

rollback_restores_example :
    ((rollback_to_checkpoint strip "id" none 5 5 strayed).0 ≡ ok episode)
    × (lookup text_dec "id" (rollback_to_checkpoint strip "id" none 5 5 strayed).1.records
        ≡ some rolled_back)
    × (lookup text_dec "id" (rollback_to_checkpoint strip "id" none 5 5 strayed).1.checkpoints
        ≡ some (checkpoint_of rolled_back))
unfolding text_dec episodes.observation strip
rollback_restores_example =
    rollback_restores "id" (record live { env = ended }) strayed refl strip none 5 5 live seen refl
      (omega arith) refl refl refl

other_tenant_refused_example :
    (get_record "id" (some "other") 5 (held live) ≡ (err access_denied, held live))
    × (get "id" (some "other") 5 5 (held live) ≡ (err access_denied, held live))
    × (reset "id" none (some "other") 5 5 (held live) ≡ (err access_denied, held live))
    × (rollback_to_checkpoint strip "id" (some "other") 5 5 (held live)
        ≡ (err access_denied, held live))
    × (move_to failed "id" (some "other") 5 (held live) ≡ (err access_denied, held live))
    × (restore "id" (some "other") (held live) ≡ err access_denied)
unfolding text_dec
other_tenant_refused_example =
    other_tenant_refused "id" live (held live) refl strip "other" none failed 5 5
      (checkpoint_of live) (λ e. cc) refl (λ e. cc)

abbrev finished : SessionRecord
finished = record live { env = ended; status = completed }

get_record_late_example :
    get_record "id" none 99 (held finished) ≡ (err invalid_transition, held finished)
unfolding text_dec
get_record_late_example =
    get_record_late "id" finished (held finished) refl none 99 refl (omega arith)

step_completed_escapes_example :
    ((step_session strip "id" pausing "tenant" 5 5 5 5 (held finished)).0
      ≡ escapes invalid_transition)
    × (status_of (step_session strip "id" pausing "tenant" 5 5 5 5 (held finished)).0 ≡ 500)
unfolding text_dec
step_completed_escapes_example =
    step_completed_escapes strip "id" pausing "tenant" 5 5 5 5 finished (held finished) refl refl
      (omega arith) (omega arith) refl refl
