-- ===== src/Session/History.antt =====
-- Every history of calls on a registry: an ended session stays ended.
use project_mimic.Prelude.{
  Result-cases, Bool-cases, text_dec, ok, ℕ, ◌+◌, String, ◌≡◌, refl, inl, inr, true, false, Option,
  none, some, [], ◌∷◌, arith,
}
use project_mimic.Dict.{Dict, lookup, IsUnique, lookup-insert}
use project_mimic.Environment
use project_mimic.Environment.{Env, EnvPayload}
use project_mimic.Session.Types.{
  SessionStatus, created, running, expired, SessionRecord, SessionRegistry,
}
use project_mimic.Session.{
  transition, set_record, persist_checkpoint, persist_metadata, commit, is_terminal, touched, get,
  create, reset,
}
use project_mimic.Session.Operations.{
  roll_back, resumed, rollback_to_checkpoint, move_to, save_checkpoint, is_stale, scavenge,
  scavenge_expired, state_of,
}
use project_mimic.Session.Status.{
  Safe, Safe-refl, Safe-trans, Follows, set_record-Safe, set_new_record-Safe, Safe-of_records,
  commit-Safe, transition-Follows, on_record-Safe, Keeps,
}

records-persist_metadata :
    (sid : String) (r : SessionRecord) (g : SessionRegistry)
    → (persist_metadata sid r g).records ≡ g.records
unfolding persist_metadata
records-persist_metadata sid r g = refl

records-persist_checkpoint :
    (sid : String) (r : SessionRecord) (g : SessionRegistry)
    → (persist_checkpoint sid r g).records ≡ g.records
unfolding persist_checkpoint
records-persist_checkpoint sid r g = refl

get-Safe :
    (sid : String) (tenant : Option String) (now later : ℕ) (g : SessionRegistry)
    → Safe g (get sid tenant now later g).1
unfolding get
get-Safe sid tenant now later g = on_record-Safe _ sid tenant now g λ r found.
    let r' : SessionRecord = record r { last_accessed_at = later } in
    Safe-of_records g (set_record sid r' g) _
      (records-persist_metadata sid r' (set_record sid r' g))
      (set_record-Safe sid r r' g found (λ t. refl))

save_checkpoint-Safe :
    (sid : String) (now : ℕ) (g : SessionRegistry) → Safe g (save_checkpoint sid now g).1
unfolding save_checkpoint
save_checkpoint-Safe sid now g =
    on_record-Safe _ sid none now g
      λ r found. Safe-of_records g g _ (records-persist_checkpoint sid r g) (Safe-refl g)

move_to-Safe :
    (target : SessionStatus) (sid : String) (tenant : Option String) (now : ℕ) (g : SessionRegistry)
    → Safe g (move_to target sid tenant now g).1
unfolding move_to
move_to-Safe target sid tenant now g = on_record-Safe _ sid tenant now g λ r found.
    elim (Result-cases (transition target r)) [
      | inl (r', e) ↦ rw e (commit-Safe sid r r' g found (transition-Follows target r r' e).0)
      | inr (x, e) ↦ rw e (Safe-refl g)
    ]

reset-Safe :
    (sid : String) (goal tenant : Option String) (now later : ℕ) (g : SessionRegistry)
    → Safe g (reset sid goal tenant now later g).1
unfolding reset
reset-Safe sid goal tenant now later g = on_record-Safe _ sid tenant now g λ r found.
    elim (Bool-cases (is_terminal r.status)) [
      | inl over ↦ rw over (Safe-refl g)
      | inr live ↦ elim (Result-cases (transition running r)) [
        | inl (r', e) ↦ rw (live, e) (commit-Safe sid r _ g found (λ t. cc))
        | inr (x, e) ↦ rw (live, e) (Safe-refl g)
      ]
    ]

resumed-Follows : (r r' : SessionRecord) → resumed r ≡ ok r' → Follows r r'
unfolding resumed
resumed-Follows r r' e = elim (Bool-cases (is_terminal r.status)) [
  | inl over ↦ λ t. ground (arith, e)
  | inr live ↦ λ t. cc
]

roll_back-Safe :
    (trim : String → String) (sid : String) (payload : EnvPayload) (now : ℕ) (r : SessionRecord)
    (g : SessionRegistry)
    → lookup text_dec sid g.records ≡ some r
    → Safe g (roll_back trim sid payload now r g).1
unfolding roll_back
roll_back-Safe trim sid payload now r g found =
    let r1 : SessionRecord = record r { env = Environment.load_state payload r.env } in
    elim (Result-cases (Environment.observation trim "restore" r1.env)) [
      | inr (x, e) ↦ rw (roll_back, e) (set_record-Safe sid r r1 g found (λ t. refl))
      | inl (o, e) ↦ elim (Result-cases (resumed r1)) [
        | inr (x, e') ↦ rw (roll_back, e, e') (set_record-Safe sid r r1 g found (λ t. refl))
        | inl (r2, e') ↦
            rw (roll_back, e, e')
              (commit-Safe sid r (touched g now r2) g found (resumed-Follows r1 r2 e'))
      ]
    ]

rollback_to_checkpoint-Safe :
    (trim : String → String) (sid : String) (tenant : Option String) (now later : ℕ)
    (g : SessionRegistry)
    → Safe g (rollback_to_checkpoint trim sid tenant now later g).1
unfolding rollback_to_checkpoint
rollback_to_checkpoint-Safe trim sid tenant now later g =
    on_record-Safe _ sid tenant now g λ r found.
      elim (Result-cases (state_of (lookup text_dec sid g.checkpoints))) [
        | inl (payload, e) ↦ rw e (roll_back-Safe trim sid payload later r g found)
        | inr (x, e) ↦ rw e (Safe-refl g)
      ]

create-Safe :
    (goal : String) (n : ℕ) (tenant sid : String) (now : ℕ) (g : SessionRegistry)
    → lookup text_dec sid g.records ≡ none
    → Safe g (create goal n tenant sid now g).1
unfolding create
create-Safe goal n tenant sid now g new = elim (Result-cases (Environment.new goal n)) [
  | inr (x, e) ↦ rw (create, e) (Safe-refl g)
  | inl (env, e) ↦
      let r : SessionRecord = record {
        env = Environment.reset none env;
        status = created;
        created_at = now;
        last_accessed_at = now;
        expires_at = now + g.ttl;
        tenant_id = tenant;
      } in
      rw (create, e)
        (Safe-trans g (set_record sid r g) _ (set_new_record-Safe sid r g new) (
          commit-Safe sid r (record r { status = running }) (set_record sid r g)
            (ground (arith, lookup-insert text_dec sid sid r g.records)) (λ t. cc)))
]

-- every entry of the list is what the registry holds under its key
abbrev Stored : Dict String SessionRecord → SessionRegistry → Type 0
Stored [] g = Unit {0}
Stored ((sid, r) ∷ d) g = (lookup text_dec sid g.records ≡ some r) × Stored d g

Stored-commit :
    (sid : String) (r : SessionRecord) (d : Dict String SessionRecord) (g : SessionRegistry)
    → lookup text_dec sid d ≡ none
    → Stored d g
    → Stored d (commit sid r g)
Stored-commit sid r [] g new s = tt
Stored-commit sid r ((k, x) ∷ d) g new s = (
  rw records-persist_checkpoint (ground (arith, lookup-insert text_dec sid k r g.records)),
  Stored-commit sid r d g (ground arith) s.1,
)

scavenge-Safe :
    (now n : ℕ) (d : Dict String SessionRecord) (g : SessionRegistry)
    → IsUnique text_dec d
    → Stored d g
    → Safe g (scavenge now d n g).1
unfolding scavenge
scavenge-Safe now n [] g u s = Safe-refl g
scavenge-Safe now n ((sid, r) ∷ d) g u s = elim (Bool-cases (is_stale now r)) [
  | inr live ↦ rw (live, scavenge) (scavenge-Safe now n d g u.1 s.1)
  | inl stale ↦
      let r' : SessionRecord = record r { status = expired } in
      rw (stale, scavenge)
        (Safe-trans g (commit sid r' g) _
          (commit-Safe sid r r' g s.0 (λ t. cc (t, not_ended r stale)))
          (scavenge-Safe now (n + 1) d (commit sid r' g) u.1 (Stored-commit sid r' d g u.0 s.1)))
]
  where
    not_ended : (r : SessionRecord) → is_stale now r ≡ true → is_terminal r.status ≡ false
    not_ended r h = ground arith

Stored-of_unique :
    (d : Dict String SessionRecord) (g : SessionRegistry)
    → IsUnique text_dec d
    → ((j : String) (r : SessionRecord)
        → lookup text_dec j d ≡ some r
        → lookup text_dec j g.records ≡ some r)
    → Stored d g
Stored-of_unique [] g u h = tt
Stored-of_unique ((k, x) ∷ d) g u h =
    (h k x (ground arith), Stored-of_unique d g u.1 (λ j r e. h j r (ground arith)))

scavenge_expired-Safe : (now : ℕ) (g : SessionRegistry) → Safe g (scavenge_expired now g).1
unfolding scavenge_expired
scavenge_expired-Safe now g u =
    scavenge-Safe now 0 g.records g u (Stored-of_unique g.records g u (λ j r e. e)) u

-- One call, returning or raising. A new session draws an id that no session has.
pub data Step (trim : String → String) (g : SessionRegistry) : SessionRegistry → Type 0 where
  creates :
      (goal : String) (n : ℕ) (tenant sid : String) (now : ℕ)
      → lookup text_dec sid g.records ≡ none
      → Step trim g (create goal n tenant sid now g).1
  gets :
      (sid : String) (tenant : Option String) (now later : ℕ)
      → Step trim g (get sid tenant now later g).1
  resets :
      (sid : String) (goal tenant : Option String) (now later : ℕ)
      → Step trim g (reset sid goal tenant now later g).1
  rolls_back :
      (sid : String) (tenant : Option String) (now later : ℕ)
      → Step trim g (rollback_to_checkpoint trim sid tenant now later g).1
  moves :
      (target : SessionStatus) (sid : String) (tenant : Option String) (now : ℕ)
      → Step trim g (move_to target sid tenant now g).1
  saves : (sid : String) (now : ℕ) → Step trim g (save_checkpoint sid now g).1
  scavenges : (now : ℕ) → Step trim g (scavenge_expired now g).1

pub data Reach (trim : String → String) (g : SessionRegistry) : SessionRegistry → Type 0 where
  here : Reach trim g g
  next : {h k : SessionRegistry} → Reach trim g h → Step trim h k → Reach trim g k

Step-Safe : (trim : String → String) {g h : SessionRegistry} → Step trim g h → Safe g h
Step-Safe trim (creates goal n tenant sid now new) = create-Safe goal n tenant sid now _ new
Step-Safe trim (gets sid tenant now later) = get-Safe sid tenant now later _
Step-Safe trim (resets sid goal tenant now later) = reset-Safe sid goal tenant now later _
Step-Safe trim (rolls_back sid tenant now later) =
    rollback_to_checkpoint-Safe trim sid tenant now later _
Step-Safe trim (moves target sid tenant now) = move_to-Safe target sid tenant now _
Step-Safe trim (saves sid now) = save_checkpoint-Safe sid now _
Step-Safe trim (scavenges now) = scavenge_expired-Safe now _

-- In every history of calls on a registry that holds no session twice, those that raise included,
-- a session that is completed, failed or expired keeps that status, and none is held twice.
pub Reach-Safe :
    (trim : String → String) {g h : SessionRegistry}
    → Reach trim g h
    → IsUnique text_dec g.records
    → Keeps g h
Reach-Safe trim here = Safe-refl _
Reach-Safe trim (next r s) = Safe-trans _ _ _ (Reach-Safe trim r) (Step-Safe trim s)
