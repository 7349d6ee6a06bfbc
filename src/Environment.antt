-- ===== src/Environment.antt =====
-- src/project_mimic/environment.py and the action and observation types of
-- src/project_mimic/models.py. Scores are in hundredths. `trim` is what pydantic's
-- `str_strip_whitespace` does to the text fields of a model.
pub mod Episode
use Prim.Native.String
use project_mimic.Prelude.{
  ite-elim, length, length-append, replicate, keep, any, take, All, count, member, without, remove,
  count-append, count-without, count-remove_ne, count-remove_self, member-count, not-member-count,
  ltb, leb, ◌==◌, if◌then◌else◌, is_some, Bool-cases, Option-cases, ltb→lt, leb→le, le→leb, lt→ltb,
  text_dec, strip, is_empty, strip-strip, Exception, value_error, key_error, runtime_error,
  session_expired, invalid_transition, access_denied, checkpoint_recovery, Result, ok, err, Action,
  pure, raise, lift, gets, or_raise, raise_if, modify, ◌>>=◌, ◌>>◌, ℕ, zero, suc, ◌+◌, ◌-◌, ◌*◌,
  ◌/◌, ◌%◌, ◌^◌, ◌≤◌, ◌<◌, min, max, String, ◌≡◌, refl, sym, ap, ◌∙◌, subst, ◌≢◌, ◌↔◌, ◌⊎◌, inl,
  inr, ite, Bool, true, false, not, ◌&&◌, ◌||◌, Option, none, some, List, [], ◌∷◌, ◌++◌, map, arith,
  ℕ_discrete,
}
use project_mimic.Json.{ℤ, Json, JsonFields, null, str, truthy, get_field}

pub data ActionType : Type 0 where
  click type_text wait : ActionType

pub record UiAction : Type 0 where
  pub action_type : ActionType
  pub target : Option String
  pub x : Option ℤ
  pub y : Option ℤ
  pub text : Option String
  pub wait_ms : Option ℕ
  pub metadata : JsonFields

-- `bool(text)` and `text or ""`
abbrev pub or_blank : Option String → String
or_blank none = ""
or_blank (some s) = s

-- `UIAction.validate_payload`
unfoldable pub validate_payload : UiAction → Result UiAction
validate_payload a = elim a.action_type [
  | click ↦
      if not (is_empty (or_blank a.target)) || (is_some a.x && is_some a.y)
      then ok a
      else err (value_error "click action requires target or x/y coordinates")
  | type_text ↦
      if is_empty (or_blank a.text)
      then err (value_error "type action requires non-empty text")
      else ok a
  | wait ↦ ok a
]

pub record Observation : Type 0 where
  pub step_index : ℕ
  pub goal : String
  pub status : String
  pub url : Option String
  pub last_event : String
  pub history_length : ℕ
  pub max_steps : ℕ

pub record Reward : Type 0 where
  pub score : ℕ
  pub reason : String

pub record ActionRecord : Type 0 where
  pub step_index : ℕ
  pub action_type : ActionType
  pub target : Option String
  pub x : Option ℤ
  pub y : Option ℤ

-- what `state()` returns, which is also all that the object holds
pub record Env : Type 0 where
  pub goal : String
  pub step_index : ℕ
  pub status : String
  pub done : Bool
  pub history : List ActionRecord
  pub last_url : Json
  pub max_steps : ℕ

unfoldable pub new : String → ℕ → Result Env
new goal max_steps =
    if leb max_steps 0
    then err (value_error "max_steps must be positive")
    else ok (record {
      goal = goal;
      step_index = 0;
      status = "running";
      done = false;
      history = [];
      last_url = null;
      max_steps = max_steps;
    })

-- `metadata.get(k)`, with None for a key that is not there
abbrev pub get_or_null : Option Json → Json
get_or_null none = null
get_or_null (some x) = x

text_length : String → ℕ
text_length String.[] = 0
text_length (String.◌∷◌ c s) = suc (text_length s)

or_zero : Option ℕ → ℕ
or_zero none = 0
or_zero (some n) = n

-- `_score_action`
unfoldable pub score_action : UiAction → Reward
unfolding text_length or_zero
score_action a = elim a.action_type [
  | click ↦ record { score = 10; reason = "click action accepted" }
  | type_text ↦ record {
    score = 5 + min (text_length (or_blank a.text)) 15;
    reason = "typed input";
  }
  | wait ↦ record {
    score = if leb (or_zero a.wait_ms) 300 then 2 else 1;
    reason = "wait action accepted";
  }
]

abbrev pub action_name : ActionType → String
action_name click = "click"
action_name type_text = "type"
action_name wait = "wait"

-- `url` must be a text or None: anything else is a ValidationError, which is a ValueError
abbrev pub url_of : (String → String) → Json → Result (Option String)
url_of trim null = ok none
url_of trim (str s) = ok (some (trim s))
url_of trim _ = err (value_error "url")

unfoldable pub observation : (String → String) → String → Env → Result Observation
observation trim last_event e = elim (url_of trim e.last_url) [
  | ok url ↦ ok (record {
    step_index = e.step_index;
    goal = trim e.goal;
    status = trim e.status;
    url = url;
    last_event = last_event;
    history_length = length e.history;
    max_steps = e.max_steps;
  })
  | err x ↦ err x
]

abbrev pub new_goal : Option String → String → String
new_goal none old = old
new_goal (some goal) old = goal

-- `reset`: the observation cannot fail, since the url is None
unfoldable pub reset : Option String → Env → Env
reset goal e = record e {
  goal = new_goal goal e.goal;
  step_index = 0;
  status = "running";
  done = false;
  history = [];
  last_url = null;
}

unfoldable pub goal_completed : UiAction → Bool
goal_completed a = truthy (get_or_null (get_field "goal_completed" a.metadata))

-- the episode after the step was counted: completed, out of steps, or going on
abbrev pub finish : UiAction → Env → Env
finish a e =
    if goal_completed a
    then record e { status = "completed"; done = true }
    else if leb e.max_steps e.step_index
    then record e { status = "max_steps_reached"; done = true }
    else e

abbrev pub reward_of : UiAction → Reward
reward_of a =
    if goal_completed a
    then record { score = (score_action a).score + 100; reason = "goal completed" }
    else score_action a

abbrev pub record_of : UiAction → ℕ → ActionRecord
record_of a n = record {
  step_index = n;
  action_type = a.action_type;
  target = a.target;
  x = a.x;
  y = a.y;
}

-- the object after a step that was let through
unfoldable pub stepped : UiAction → Env → Env
stepped a e =
    let e1 = record e {
      step_index = e.step_index + 1;
      last_url = get_or_null (get_field "url" a.metadata);
    } in
    let e2 = finish a e1 in record e2 { history = e2.history ++ record_of a e2.step_index ∷ [] }

pub record StepResult : Type 0 where
  pub seen : Observation
  pub reward : Reward
  pub done : Bool

unfoldable pub step : (String → String) → UiAction → Action Env StepResult
unfolding stepped observation
step trim a e =
    if e.done
    then (err (runtime_error "cannot call step() on a completed episode; call reset() first"), e)
    else let e' = stepped a e in
      elim (observation trim (action_name a.action_type) e') [
        | ok o ↦ (ok (record { seen = o; reward = reward_of a; done = e'.done }), e')
        | err x ↦ (err x, e')
      ]

-- a state payload: a dict whose keys may be missing
pub record EnvPayload : Type 0 where
  pub goal : Option String
  pub step_index : Option ℕ
  pub status : Option String
  pub done : Option Bool
  pub history : Option (List ActionRecord)
  pub last_url : Option Json
  pub max_steps : Option ℕ

-- `state()`
unfoldable pub state : Env → EnvPayload
state e = record {
  goal = some e.goal;
  step_index = some e.step_index;
  status = some e.status;
  done = some e.done;
  history = some e.history;
  last_url = some e.last_url;
  max_steps = some e.max_steps;
}

-- `payload.get(k, default)`
abbrev or_default : {A : Type 0} → Option A → A → A
or_default none d = d
or_default (some a) d = a

-- `load_state`, up to the observation that it returns
unfoldable pub load_state : EnvPayload → Env → Env
load_state p e = record {
  goal = or_default p.goal e.goal;
  step_index = or_default p.step_index 0;
  status = or_default p.status "running";
  done = or_default p.done false;
  history = or_default p.history [];
  last_url = or_default p.last_url null;
  max_steps = or_default p.max_steps e.max_steps;
}
