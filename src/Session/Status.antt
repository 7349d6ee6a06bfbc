-- ===== src/Session/Status.antt =====
-- What every call on the registry does to the statuses of the sessions.
use project_mimic.Prelude.{
  Result-cases, ltb, Bool-cases, Option-cases, text_dec, Exception, key_error, session_expired,
  access_denied, Result, ok, err, Action, ℕ, String, ◌≡◌, refl, sym, subst, ◌≢◌, ◌⊎◌, inl, inr,
  true, false, Option, none, some, arith,
}
use project_mimic.Dict.{Dict, lookup, IsUnique, lookup-insert, insert-IsUnique}
use project_mimic.Session.Types.{
  SessionStatus, completed, failed, expired, status_dec, allowed, SessionRecord, SessionRegistry,
}
use project_mimic.Session.{
  transition, may_access, set_record, persist_checkpoint, commit, ensure_not_expired, get_record,
  on_record, is_terminal,
}

abbrev pub status_of : Option SessionRecord → Option SessionStatus
status_of none = none
status_of (some r) = some r.status

abbrev pub status_at : String → SessionRegistry → Option SessionStatus
status_at j g = status_of (lookup text_dec j g.records)

-- From a registry that holds no session twice to another one: the sessions that had ended keep
-- their status.
pub record Keeps (g h : SessionRegistry) : Type 0 where
  pub unique : IsUnique text_dec h.records
  pub ended :
      (j : String) (s : SessionStatus)
      → status_at j g ≡ some s
      → is_terminal s ≡ true
      → status_at j h ≡ some s

abbrev pub Safe : SessionRegistry → SessionRegistry → Type 0
Safe g h = IsUnique text_dec g.records → Keeps g h

pub Safe-refl : (g : SessionRegistry) → Safe g g
Safe-refl g u = record { unique = u; ended = λ j s e t. e }

pub Safe-trans : (f g h : SessionRegistry) → Safe f g → Safe g h → Safe f h
Safe-trans f g h a b u =
    let x = a u in
    let y = b x.unique in
    record { unique = y.unique; ended = λ j s e t. y.ended j s (x.ended j s e t) t }

-- the record that a call writes over an old one: an ended session's status is the same
abbrev pub Follows : SessionRecord → SessionRecord → Type 0
Follows r r' = is_terminal r.status ≡ true → r'.status ≡ r.status

pub set_record-Safe :
    (sid : String) (r r' : SessionRecord) (g : SessionRegistry)
    → lookup text_dec sid g.records ≡ some r
    → Follows r r'
    → Safe g (set_record sid r' g)
set_record-Safe sid r r' g found f u = record {
  unique = insert-IsUnique text_dec sid r' g.records u;
  ended = λ j s e t. ground (arith, lookup-insert text_dec sid j r' g.records);
}

pub set_new_record-Safe :
    (sid : String) (r' : SessionRecord) (g : SessionRegistry)
    → lookup text_dec sid g.records ≡ none
    → Safe g (set_record sid r' g)
set_new_record-Safe sid r' g new u = record {
  unique = insert-IsUnique text_dec sid r' g.records u;
  ended = λ j s e t. ground (arith, lookup-insert text_dec sid j r' g.records);
}

records-persist_checkpoint :
    (sid : String) (r : SessionRecord) (g : SessionRegistry)
    → (persist_checkpoint sid r g).records ≡ g.records
unfolding persist_checkpoint
records-persist_checkpoint sid r g = refl

pub Safe-of_records : (f g h : SessionRegistry) → h.records ≡ g.records → Safe f g → Safe f h
Safe-of_records f g h e a u = record {
  unique = subst (λ (d : Dict String SessionRecord). IsUnique text_dec d) (sym e) (a u).unique;
  ended = λ j s p t.
      subst (λ (d : Dict String SessionRecord). status_of (lookup text_dec j d) ≡ some s) (sym e)
        ((a u).ended j s p t);
}

pub commit-Safe :
    (sid : String) (r r' : SessionRecord) (g : SessionRegistry)
    → lookup text_dec sid g.records ≡ some r
    → Follows r r'
    → Safe g (commit sid r' g)
commit-Safe sid r r' g found f =
    Safe-of_records g (set_record sid r' g) (commit sid r' g)
      (records-persist_checkpoint sid r' (set_record sid r' g)) (set_record-Safe sid r r' g found f)

-- a status that `transition` accepts follows from the old one
pub transition-Follows :
    (target : SessionStatus) (r r' : SessionRecord)
    → transition target r ≡ ok r'
    → Follows r r' × (r'.status ≡ target)
unfolding transition allowed
transition-Follows target r r' e = ground arith

-- `get_record` returns the record of an accessible session before its expiry, or raises.
abbrev pub Got : String → Option String → ℕ → SessionRegistry → Type 0
Got sid tenant now g =
    ((r : SessionRecord) × (lookup text_dec sid g.records ≡ some r)
      × (may_access r tenant ≡ true)
      × (ltb r.expires_at now ≡ false)
      × (get_record sid tenant now g ≡ (ok r, g)))
    ⊎ ((e : Exception) × ((get_record sid tenant now g).0 ≡ err e)
        × Safe g (get_record sid tenant now g).1)

transition-expired :
    (r : SessionRecord)
    → (r.status ≢ completed)
    → (r.status ≢ failed)
    → transition expired r ≡ ok (record r { status = expired })
unfolding transition allowed status_dec
transition-expired r c f = ground arith

expire-Safe :
    (sid : String) (r : SessionRecord) (now : ℕ) (g : SessionRegistry)
    → lookup text_dec sid g.records ≡ some r
    → ltb r.expires_at now ≡ true
    → (e : Exception) × ((ensure_not_expired sid r now g).0 ≡ err e)
      × Safe g (ensure_not_expired sid r now g).1
unfolding ensure_not_expired
expire-Safe sid r now g found late = elim (Result-cases (transition expired r)) [
  | inl (r', ok_r') ↦ (
    session_expired,
    rw (ensure_not_expired, late, ok_r'),
    rw (ensure_not_expired, late, ok_r')
        (set_record-Safe sid r r' g found (transition-Follows expired r r' ok_r').0),
  )
  | inr (e, refused) ↦ (
    e,
    rw (ensure_not_expired, late, refused),
    rw (ensure_not_expired, late, refused) (Safe-refl g),
  )
]

pub get_record-Got :
    (sid : String) (tenant : Option String) (now : ℕ) (g : SessionRegistry) → Got sid tenant now g
unfolding get_record
get_record-Got sid tenant now g = elim (Option-cases (lookup text_dec sid g.records)) [
  | inl missing ↦
      inr (key_error sid, rw (get_record, missing), rw (get_record, missing) (Safe-refl g))
  | inr (r, found) ↦ elim (Bool-cases (may_access r tenant)) [
    | inr denied ↦ inr (
      access_denied,
      rw (get_record, found, denied),
      rw (get_record, found, denied) (Safe-refl g),
    )
    | inl granted ↦ elim (Bool-cases (ltb r.expires_at now)) [
      | inl late ↦
          let (e, raised, safe) = expire-Safe sid r now g found late in
          inr (e, rw (get_record, found, granted) raised, rw (get_record, found, granted) safe)
      | inr live ↦
          inl (r, found, granted, live, rw (get_record, found, granted, ensure_not_expired, live))
    ]
  ]
]

-- The rule for an operation that begins with `get_record`.
pub on_record-Safe :
    {A : Type 0} (f : SessionRecord → Action SessionRegistry A) (sid : String)
    (tenant : Option String) (now : ℕ) (g : SessionRegistry)
    → ((r : SessionRecord) → lookup text_dec sid g.records ≡ some r → Safe g (f r g).1)
    → Safe g (on_record f (get_record sid tenant now g)).1
on_record-Safe f sid tenant now g h = elim (get_record-Got sid tenant now g) [
  | inl (r, found, _, _, e) ↦ rw e (h r found)
  | inr (e, raised, safe) ↦ rw (on_record-err f (get_record sid tenant now g) e raised) safe
]
  where
    on_record-err :
        {A : Type 0} (f : SessionRecord → Action SessionRegistry A)
        (x : Result SessionRecord × SessionRegistry) (e : Exception)
        → x.0 ≡ err e
        → (on_record f x).1 ≡ x.1
    on_record-err f (ok r, g) e h = cc
    on_record-err f (err x, g) e h = refl
