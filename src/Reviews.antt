-- ===== src/Reviews.antt =====
-- src/project_mimic/review_queue.py: the queue of actions that wait for a human decision.
-- Confidence is in hundredths; `lower` is a parameter for Python's `str.lower`; the drawn id and
-- each reading of the clock are arguments.
pub mod Decisions
use project_mimic.Prelude.{
  Result-cases, ite-elim, length, length-append, replicate, keep, any, take, All, count, member,
  without, remove, count-append, count-without, count-remove_ne, count-remove_self, member-count,
  not-member-count, ltb, leb, ◌==◌, if◌then◌else◌, is_some, Bool-cases, Option-cases, ltb→lt,
  leb→le, le→leb, lt→ltb, text_dec, strip, is_empty, strip-strip, Exception, value_error, key_error,
  runtime_error, session_expired, invalid_transition, access_denied, checkpoint_recovery, Result,
  ok, err, Action, pure, raise, lift, gets, or_raise, raise_if, modify, ◌>>=◌, ◌>>◌, ℕ, zero, suc,
  ◌+◌, ◌-◌, ◌*◌, ◌/◌, ◌%◌, ◌^◌, ◌≤◌, ◌<◌, min, max, String, ◌≡◌, refl, sym, ap, ◌∙◌, subst, ◌≢◌,
  ◌↔◌, ◌⊎◌, inl, inr, ite, Bool, true, false, not, ◌&&◌, ◌||◌, Option, none, some, List, [], ◌∷◌,
  ◌++◌, map, arith, ℕ_discrete,
}
use project_mimic.Dict.{Dict, lookup, insert}
use project_mimic.Json.{ℤ, pos, negsuc, JsonFields}

pub data ReviewStatus : Type 0 where
  pending approved rejected : ReviewStatus

pub record ReviewItem : Type 0 where
  pub review_id : String
  pub tenant_id : String
  pub session_id : Option String
  pub action_payload : JsonFields
  pub confidence : ℕ
  pub reason : String
  pub status : ReviewStatus
  pub resolution : Option ReviewStatus
  pub resolution_note : Option String
  pub created_at : ℕ
  pub resolved_at : Option ℕ

pub record ReviewQueue : Type 0 where
  pub items : Dict String ReviewItem
  pub saved : Option (Dict String ReviewItem)

-- `self._items[review_id] = item` and `_persist`
abbrev pub store_item : String → ReviewItem → ReviewQueue → ReviewQueue
store_item k r q =
    let items' = insert text_dec k r q.items in record q { items = items'; saved = some items' }

-- a confidence from 0 to 1
abbrev pub valid_confidence : ℤ → Option ℕ
valid_confidence (pos n) = if ltb 100 n then none else some n
valid_confidence (negsuc n) = none

unfoldable pub submit :
    String → JsonFields → ℤ → String → Option String → String → ℕ → Action ReviewQueue ReviewItem
submit tenant_id payload confidence reason session_id fresh now q =
    if is_empty (strip tenant_id)
    then (err (value_error "tenant_id must not be empty"), q)
    else if is_empty (strip reason)
    then (err (value_error "reason must not be empty"), q)
    else elim (valid_confidence confidence) [
      | none ↦ (err (value_error "confidence must be between 0 and 1"), q)
      | some c ↦
          let r : ReviewItem = record {
            review_id = fresh;
            tenant_id = tenant_id;
            session_id = session_id;
            action_payload = payload;
            confidence = c;
            reason = reason;
            status = pending;
            resolution = none;
            resolution_note = none;
            created_at = now;
            resolved_at = none;
          } in
          (ok r, store_item fresh r q)
    ]

abbrev pub is_waiting : ReviewStatus → Bool
is_waiting pending = true
is_waiting _ = false

-- the two decisions, as texts
unfoldable pub decided : String → Option ReviewStatus
decided d =
    ite (text_dec d "approved") (some approved) (ite (text_dec d "rejected") (some rejected) none)

module _ (lower : String → String) where
  unfoldable pub resolve : String → String → Option String → ℕ → Action ReviewQueue ReviewItem
  resolve review_id decision note now q = elim (lookup text_dec review_id q.items) [
    | none ↦ (err (key_error review_id), q)
    | some r ↦
        if not (is_waiting r.status)
        then (err (value_error "review item is already resolved"), q)
        else elim (decided (lower (strip decision))) [
          | none ↦ (err (value_error "decision must be approved or rejected"), q)
          | some d ↦
              let r' = record r {
                status = d;
                resolution = some d;
                resolution_note = note;
                resolved_at = some now;
              } in
              (ok r', store_item review_id r' q)
        ]
  ]
