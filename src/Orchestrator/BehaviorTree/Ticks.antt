-- ===== src/Orchestrator/BehaviorTree/Ticks.antt =====
-- Each composite node against the statuses of its children, ticked in order.
use native.Mathlib.Nat.{add-zero}
use project_mimic.Prelude.{
  ltb, leb, if◌then◌else◌, ℕ, suc, ◌+◌, ◌≡◌, refl, ◌∙◌, Bool, true, false, List, [], ◌∷◌, arith,
}
use project_mimic.Orchestrator.BehaviorTree.{
  NodeStatus, success, failure, running, Nodes, sequence, selector, quorum, nil, cons,
  quorum_status, tick, tick_sequence, tick_selector, tick_quorum,
}

-- the first status that is not a success
abbrev pub first_stop : List NodeStatus → NodeStatus
first_stop [] = success
first_stop (success ∷ rest) = first_stop rest
first_stop (failure ∷ rest) = failure
first_stop (running ∷ rest) = running

abbrev pub count_status : NodeStatus → List NodeStatus → ℕ
count_status x [] = 0
count_status success (success ∷ rest) = suc (count_status success rest)
count_status failure (failure ∷ rest) = suc (count_status failure rest)
count_status running (running ∷ rest) = suc (count_status running rest)
count_status x (y ∷ rest) = count_status x rest

-- `success` wins, then `running`, then `failure`
abbrev pub best : ℕ → ℕ → NodeStatus
best successes running_count =
    if ltb 0 successes then success else if ltb 0 running_count then running else failure

module _ {C : Type 0} where
  -- the statuses of all children, each ticked in the context that the one before it left
  abbrev pub statuses : Nodes C → C → List NodeStatus
  statuses nil c = []
  statuses (cons n ns) c = (tick n c).0 ∷ statuses ns (tick n c).1

  tick_sequence-first_stop :
      (ns : Nodes C) (c : C) → (tick_sequence ns c).0 ≡ first_stop (statuses ns c)
  unfolding tick_sequence
  tick_sequence-first_stop nil c = refl
  tick_sequence-first_stop (cons n ns) c = ground (arith, tick_sequence-first_stop ns (tick n c).1)

  tick_selector-best :
      (ns : Nodes C) (saw : Bool) (c : C)
      → (tick_selector ns saw c).0
        ≡ best
            (count_status success (statuses ns c))
            ((if saw then 1 else 0) + count_status running (statuses ns c))
  unfolding tick_selector
  tick_selector-best nil saw c = ground arith
  tick_selector-best (cons n ns) saw c =
      ground
        (arith, tick_selector-best ns saw (tick n c).1, tick_selector-best ns true (tick n c).1)

  tick_quorum-count :
      (ns : Nodes C) (k s r : ℕ) (c : C)
      → (tick_quorum ns k (s, r) c).0
        ≡ quorum_status k
            (s + count_status success (statuses ns c))
            (r + count_status running (statuses ns c))
  unfolding tick_quorum
  tick_quorum-count nil k s r c = simp add-zero
  tick_quorum-count (cons n ns) k s r c = ground (
    arith,
    tick_quorum-count ns k (s + 1) r (tick n c).1,
    tick_quorum-count ns k s r (tick n c).1,
    tick_quorum-count ns k s (r + 1) (tick n c).1,
  )

  -- A sequence has the first status of its children that is not a success, or succeeds.
  pub tick-sequence : (ns : Nodes C) (c : C) → (tick (sequence ns) c).0 ≡ first_stop (statuses ns c)
  unfolding tick
  tick-sequence ns c = tick_sequence-first_stop ns c

  -- A selector succeeds if a child succeeds, else runs if a child runs, else fails.
  pub tick-selector :
      (ns : Nodes C) (c : C)
      → (tick (selector ns) c).0
        ≡ best (count_status success (statuses ns c)) (count_status running (statuses ns c))
  unfolding tick
  tick-selector ns c = tick_selector-best ns false c ∙ ground arith

  -- A quorum node of k succeeds when k children succeed, fails when so many failed that k cannot
  -- be reached any more, and runs otherwise.
  pub tick-quorum :
      (ns : Nodes C) (k : ℕ) (c : C)
      → let s = count_status success (statuses ns c) in
        let r = count_status running (statuses ns c) in
        (tick (quorum ns k) c).0
        ≡ (if leb k s then success else if ltb (s + r) k then failure else running)
  unfolding tick quorum_status
  tick-quorum ns k c = tick_quorum-count ns k 0 0 c ∙ ground arith
