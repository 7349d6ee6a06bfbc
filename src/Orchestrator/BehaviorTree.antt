-- ===== src/Orchestrator/BehaviorTree.antt =====
-- src/project_mimic/orchestrator/behavior_tree.py: nodes, and one tick of a tree.
-- The context that tasks change in place is passed from each child to the next.
pub mod Ticks
use project_mimic.Prelude.{
  length, length-append, replicate, keep, any, take, All, count, member, without, remove,
  count-append, count-without, count-remove_ne, count-remove_self, member-count, not-member-count,
  ltb, leb, ◌==◌, if◌then◌else◌, is_some, Bool-cases, Option-cases, ltb→lt, leb→le, le→leb, lt→ltb,
  text_dec, strip, is_empty, strip-strip, Exception, value_error, key_error, runtime_error,
  session_expired, invalid_transition, access_denied, checkpoint_recovery, Result, ok, err, Action,
  pure, raise, lift, gets, or_raise, raise_if, modify, ◌>>=◌, ◌>>◌, ℕ, zero, suc, ◌+◌, ◌-◌, ◌*◌,
  ◌/◌, ◌%◌, ◌^◌, ◌≤◌, ◌<◌, min, max, String, ◌≡◌, refl, sym, ap, ◌∙◌, subst, ◌≢◌, ◌↔◌, ◌⊎◌, inl,
  inr, ite, Bool, true, false, not, ◌&&◌, ◌||◌, Option, none, some, List, [], ◌∷◌, ◌++◌, map, arith,
  ℕ_discrete,
}

pub data NodeStatus : Type 0 where
  success failure running : NodeStatus

-- the tests after the loop of `ParallelQuorumNode.tick`
unfoldable pub quorum_status : ℕ → ℕ → ℕ → NodeStatus
quorum_status min_successes successes running_count =
    if leb min_successes successes
    then success
    else if ltb (successes + running_count) min_successes
    then failure
    else if ltb 0 running_count
    then running
    else failure

-- the counters of the loop: successes and running children
abbrev pub tally : NodeStatus → ℕ × ℕ → ℕ × ℕ
tally success (s, r) = (s + 1, r)
tally failure (s, r) = (s, r)
tally running (s, r) = (s, r + 1)

mutual
  pub data Node (Context : Type 0) : Type 0 where
    task : (Context → NodeStatus × Context) → Node Context
    sequence : Nodes Context → Node Context
    selector : Nodes Context → Node Context
    quorum : Nodes Context → ℕ → Node Context

  pub data Nodes (Context : Type 0) : Type 0 where
    nil : Nodes Context
    cons : Node Context → Nodes Context → Nodes Context

module _ {C : Type 0} where
  abbrev pub child_count : Nodes C → ℕ
  child_count nil = 0
  child_count (cons n ns) = suc (child_count ns)

  -- `ParallelQuorumNode.__init__`
  unfoldable pub new_quorum : Nodes C → ℕ → Result (Node C)
  new_quorum ns k =
      if leb k 0
      then err (value_error "min_successes must be positive")
      else if ltb (child_count ns) k
      then err (value_error "min_successes cannot exceed child count")
      else ok (quorum ns k)

  unfoldable mutual
    pub tick : Node C → C → NodeStatus × C
    tick (task f) c = f c
    tick (sequence ns) c = tick_sequence ns c
    tick (selector ns) c = tick_selector ns false c
    tick (quorum ns k) c = tick_quorum ns k (0, 0) c

    pub tick_sequence : Nodes C → C → NodeStatus × C
    tick_sequence nil c = (success, c)
    tick_sequence (cons n ns) c =
        let (result, c') = tick n c in
        elim result [
          | failure ↦ (failure, c')
          | running ↦ (running, c')
          | success ↦ tick_sequence ns c'
        ]

    pub tick_selector : Nodes C → Bool → C → NodeStatus × C
    tick_selector nil saw_running c = (if saw_running then running else failure, c)
    tick_selector (cons n ns) saw_running c =
        let (result, c') = tick n c in
        elim result [
          | success ↦ (success, c')
          | running ↦ tick_selector ns true c'
          | failure ↦ tick_selector ns saw_running c'
        ]

    pub tick_quorum : Nodes C → ℕ → ℕ × ℕ → C → NodeStatus × C
    tick_quorum nil k counts c = (quorum_status k counts.0 counts.1, c)
    tick_quorum (cons n ns) k counts c =
        let (result, c') = tick n c in tick_quorum ns k (tally result counts) c'
