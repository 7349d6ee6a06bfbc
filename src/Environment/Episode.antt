-- ===== src/Environment/Episode.antt =====
-- One episode of the environment: the step counter, the bound on steps and the reward.
use project_mimic.Prelude.{
  length, length-append, leb, if◌then◌else◌, Bool-cases, runtime_error, ok, err, ℕ, zero, suc, ◌+◌,
  ◌≤◌, ◌<◌, String, ◌≡◌, refl, sym, ◌∙◌, subst, inl, inr, true, false, ◌||◌, Option, List, [], ◌∷◌,
  arith,
}
use project_mimic.Environment
use project_mimic.Environment.{
  Env, UiAction, StepResult, new, reset, step, stepped, goal_completed, score_action, reward_of,
  finish, observation,
}

-- A running episode has steps left; the history has one entry for each step.
pub record IsCounted (e : Env) : Type 0 where
  pub recorded : length e.history ≡ e.step_index
  pub bounded : e.step_index ≤ e.max_steps
  pub running : e.done ≡ false → (e.step_index < e.max_steps) × (e.status ≡ "running")

stepped-IsCounted :
    (a : UiAction) (e : Env) → e.done ≡ false → IsCounted e → IsCounted (stepped a e)
unfolding stepped
stepped-IsCounted a e d c =
    ground (
      arith,
      c.running d,
      length-append e.history (Environment.record_of a (e.step_index + 1) ∷ []),
    )

step_of_done :
    (trim : String → String) (a : UiAction) (e : Env) → e.done ≡ true → (step trim a e).1 ≡ e
unfolding step
step_of_done trim a e d = rw (d, step)

step-IsCounted :
    (trim : String → String) (a : UiAction) (e : Env) → IsCounted e → IsCounted (step trim a e).1
unfolding step
step-IsCounted trim a e c = elim (Bool-cases e.done) [
  | inl over ↦ subst IsCounted (sym (step_of_done trim a e over)) c
  | inr going ↦ ground (arith, going, stepped-IsCounted a e going c)
]

-- the object after several calls of `step`, those that raise included
abbrev pub play : (String → String) → List UiAction → Env → Env
play trim [] e = e
play trim (a ∷ acts) e = play trim acts (step trim a e).1

play-IsCounted :
    (trim : String → String) (acts : List UiAction) (e : Env)
    → IsCounted e
    → IsCounted (play trim acts e)
play-IsCounted trim [] e c = c
play-IsCounted trim (a ∷ acts) e c =
    play-IsCounted trim acts (step trim a e).1 (step-IsCounted trim a e c)

step_of_running :
    (trim : String → String) (a : UiAction) (e : Env)
    → e.done ≡ false
    → ((step trim a e).1.step_index ≡ e.step_index + 1)
      × ((step trim a e).1.max_steps ≡ e.max_steps)
unfolding step stepped
step_of_running trim a e d = ground arith

play_of_done :
    (trim : String → String) (acts : List UiAction) (e : Env) → e.done ≡ true → play trim acts e ≡ e
play_of_done trim [] e d = refl
play_of_done trim (a ∷ acts) e d = rw (step_of_done trim a e d) (play_of_done trim acts e d)

play_ends :
    (trim : String → String) (acts : List UiAction) (e : Env)
    → IsCounted e
    → e.max_steps ≤ e.step_index + length acts
    → (play trim acts e).done ≡ true
play_ends trim [] e c h = elim (Bool-cases e.done) [
  | inl over ↦ over
  | inr going ↦ absurd (omega (arith, c.running going))
]
play_ends trim (a ∷ acts) e c h = elim (Bool-cases e.done) [
  | inl over ↦ rw (play_of_done trim (a ∷ acts) e over) over
  | inr going ↦
      let (counted, same) = step_of_running trim a e going in
      play_ends trim acts (step trim a e).1 (step-IsCounted trim a e c)
        (omega (arith, counted, same))
]

new-IsCounted :
    (goal : String) (n : ℕ) (e : Env) → new goal n ≡ ok e → IsCounted e × (e.max_steps ≡ n)
unfolding new
new-IsCounted goal n e h = ground arith

-- the steps that actions take, of at most `n`: up to the first action that completes the goal
abbrev pub taken : ℕ → List UiAction → ℕ
taken zero acts = 0
taken (suc n) [] = 0
taken (suc n) (a ∷ acts) =
    let rest = taken n acts in if Environment.goal_completed a then 1 else suc rest

step-done :
    (trim : String → String) (a : UiAction) (e : Env)
    → e.done ≡ false
    → (step trim a e).1.done ≡ (Environment.goal_completed a || leb e.max_steps (e.step_index + 1))
unfolding step stepped
step-done trim a e going = ground (arith, going)

taken_last :
    (a : UiAction) (acts : List UiAction) (index most m : ℕ)
    → most ≡ index + suc m
    → (Environment.goal_completed a || leb most (index + 1)) ≡ true
    → taken (suc m) (a ∷ acts) ≡ 1
taken_last a acts index most zero left over = ground (arith, over)
taken_last a acts index most (suc k) left over = ground (arith, over, left)

taken_more :
    (a : UiAction) (acts : List UiAction) (index most m : ℕ)
    → most ≡ index + suc m
    → (Environment.goal_completed a || leb most (index + 1)) ≡ false
    → (k : ℕ) × (m ≡ suc k) × (taken (suc m) (a ∷ acts) ≡ suc (taken (suc k) acts))
taken_more a acts index most zero left still = absurd (ground (arith, still, left))
taken_more a acts index most (suc k) left still = (k, refl, ground (arith, still))

play_counts :
    (trim : String → String) (acts : List UiAction) (e : Env) (m : ℕ)
    → e.done ≡ false
    → e.max_steps ≡ e.step_index + suc m
    → (play trim acts e).step_index ≡ e.step_index + taken (suc m) acts
play_counts trim [] e m going left = omega arith
play_counts trim (a ∷ acts) e m going left =
    let (counted, same) = step_of_running trim a e going in
    let ends = step-done trim a e going in
    elim (Bool-cases (step trim a e).1.done) [
      | inl over ↦
          let last : taken (suc m) (a ∷ acts) ≡ 1 =
            taken_last a acts e.step_index e.max_steps m left (sym ends ∙ over) in
          rw (play_of_done trim acts (step trim a e).1 over, last) counted
      | inr still ↦
          let (k, e1, e2) = taken_more a acts e.step_index e.max_steps m left (sym ends ∙ still) in
          let ih =
            play_counts trim acts (step trim a e).1 k still
              (omega (arith, counted, same, left, e1)) in
          rw (ih, counted, e2) (omega arith)
    ]

new_lem :
    (goal : String) (n : ℕ) (e : Env)
    → new goal n ≡ ok e
    → (e.done ≡ false) × (e.step_index ≡ 0) × (0 < n)
unfolding new
new_lem goal n e h = ground (arith, h)

-- Whatever actions are played on a new episode, those that a done episode refuses included, it takes
-- one step for each action up to the first that completes the goal, and at most `max_steps`; its
-- history has one entry for each step, and while it is not done it is running with steps left.
pub play_of_new :
    (trim : String → String) (goal : String) (n : ℕ) (e : Env) (acts : List UiAction)
    → new goal n ≡ ok e
    → IsCounted (play trim acts e) × ((play trim acts e).step_index ≡ taken n acts)
play_of_new trim goal zero e acts h = absurd (omega (arith, (new_lem goal zero e h).2))
play_of_new trim goal (suc m) e acts h =
    let (c, most) = new-IsCounted goal (suc m) e h in
    let (going, first, _) = new_lem goal (suc m) e h in
    let counts = play_counts trim acts e m going (omega (arith, most, first)) in
    (play-IsCounted trim acts e c, omega (arith, counts, first))

-- A new episode is done after `max_steps` calls of `step` at the latest, whatever the actions.
pub play_is_done :
    (trim : String → String) (goal : String) (n : ℕ) (e : Env) (acts : List UiAction)
    → new goal n ≡ ok e
    → n ≤ length acts
    → (play trim acts e).done ≡ true
play_is_done trim goal n e acts h l =
    let (c, m) = new-IsCounted goal n e h in play_ends trim acts e c (omega (arith, m, l))

-- A done episode refuses every action and is left as it was; `reset` starts it again.
step_after_done :
    (trim : String → String) (a : UiAction) (goal : Option String) (e : Env)
    → e.done ≡ true
    → 0 < e.max_steps
    → (step trim a e
        ≡ (err (runtime_error "cannot call step() on a completed episode; call reset() first"), e))
      × IsCounted (reset goal e)
unfolding step reset
step_after_done trim a goal e d m =
    (rw (d, step), record { recorded = refl; bounded = omega arith; running = λ h. (m, refl) })
