-- ===== src/Session/Listing.antt =====
-- `list_sessions` of src/project_mimic/session_lifecycle.py. `lower` is a parameter for Python's
-- `str.lower`.
pub mod Order
pub mod Pages
use Prim.Native.Char.{code}
use Prim.Native.String as strings
use project_mimic.Prelude.{
  All-weaken, if_both, le_text, sort_by, keep-sort_by, length-sort_by, All-sort_by, IsSortedBy,
  sort_by-IsSortedBy, member-sort_by, Result-cases, ite-elim, length, length-append, replicate,
  keep, any, take, drop, All, count, member, without, remove, count-append, count-without,
  count-remove_ne, count-remove_self, member-count, not-member-count, ltb, leb, ◌==◌, if◌then◌else◌,
  is_some, Bool-cases, Option-cases, ltb→lt, leb→le, le→leb, lt→ltb, text_dec, strip, joined,
  is_empty, strip-strip, Exception, value_error, key_error, runtime_error, session_expired,
  invalid_transition, access_denied, checkpoint_recovery, Result, ok, err, Action, pure, raise,
  lift, gets, or_raise, raise_if, modify, ◌>>=◌, ◌>>◌, ℕ, zero, suc, ◌+◌, ◌-◌, ◌*◌, ◌/◌, ◌%◌, ◌^◌,
  ◌≤◌, ◌<◌, min, max, String, ◌≡◌, refl, sym, ap, ◌∙◌, subst, ◌≢◌, ◌↔◌, ◌⊎◌, inl, inr, ite, Bool,
  true, false, not, ◌&&◌, ◌||◌, Option, none, some, List, [], ◌∷◌, ◌++◌, map, arith, ℕ_discrete,
}
use project_mimic.Dict.{Dict}
use project_mimic.Json.{ℤ, pos, negsuc}
use project_mimic.Environment
use project_mimic.Session.Types.{
  SessionStatus, status_dec, SessionRecord, Metadata, SessionRegistry,
}

-- the arguments of `list_sessions`
pub record SessionQuery : Type 0 where
  pub status : Option SessionStatus
  pub goal_contains : Option String
  pub created_after : Option ℕ
  pub created_before : Option ℕ
  pub sort_key : String
  pub sort_order : String
  pub page : ℤ
  pub page_size : ℤ
  pub tenant_id : Option String

pub record SessionRow : Type 0 where
  pub session_id : String
  pub goal : String
  pub status : SessionStatus
  pub created_at : ℕ
  pub last_accessed_at : ℕ
  pub expires_at : ℕ
  pub tenant_id : String

pub record SessionPage : Type 0 where
  pub items : List SessionRow
  pub total : ℕ
  pub query : SessionQuery

abbrev rows_of_records : Dict String SessionRecord → List SessionRow
rows_of_records [] = []
rows_of_records ((k, r) ∷ d) =
    record {
      session_id = k;
      goal = r.env.goal;
      status = r.status;
      created_at = r.created_at;
      last_accessed_at = r.last_accessed_at;
      expires_at = r.expires_at;
      tenant_id = r.tenant_id;
    }
    ∷ rows_of_records d

abbrev rows_of_metadata : Dict String Metadata → List SessionRow
rows_of_metadata [] = []
rows_of_metadata ((k, m) ∷ d) =
    record {
      session_id = k;
      goal = m.goal;
      status = m.status;
      created_at = m.created_at;
      last_accessed_at = m.last_accessed_at;
      expires_at = m.expires_at;
      tenant_id = m.tenant_id;
    }
    ∷ rows_of_metadata d

-- the rows that there are: those of the metadata if no session is in memory
abbrev pub rows : SessionRegistry → List SessionRow
rows g = elim g.records [ [] ↦ rows_of_metadata g.metadata | r ∷ d ↦ rows_of_records g.records ]

-- `s.startswith(t)`
unfoldable pub starts_with : String → String → Bool
starts_with s strings.[] = true
starts_with strings.[] (strings.◌∷◌ d t) = false
starts_with (strings.◌∷◌ c s) (strings.◌∷◌ d t) =
    let rest = starts_with s t in if code c == code d then rest else false

-- `t in s`
unfoldable pub has_text : String → String → Bool
has_text t strings.[] = is_empty t
has_text t (strings.◌∷◌ c s) =
    let rest = has_text t s in if starts_with (strings.◌∷◌ c s) t then true else rest

abbrev pub sort_keys : List String
sort_keys = "created_at" ∷ "last_accessed_at" ∷ "expires_at" ∷ []

abbrev pub sort_orders : List String
sort_orders = "asc" ∷ "desc" ∷ []

-- `item[sort_by]`
abbrev key_of : String → SessionRow → ℕ
key_of k r =
    ite (text_dec k "created_at") r.created_at
      (ite (text_dec k "last_accessed_at") r.last_accessed_at r.expires_at)

-- whether a row may stand before another
abbrev pub in_order : SessionQuery → SessionRow → SessionRow → Bool
in_order q x y =
    ite (text_dec q.sort_order "desc") (leb (key_of q.sort_key y) (key_of q.sort_key x))
      (leb (key_of q.sort_key x) (key_of q.sort_key y))

module _ (lower : String → String) where
  -- the tests of the loop, each of which may skip a row
  unfoldable pub matches : SessionQuery → SessionRow → Bool
  matches q r =
      elim q.status [ none ↦ true | some s ↦ ite (status_dec r.status s) true false ]
      && elim q.tenant_id [ none ↦ true | some t ↦ ite (text_dec r.tenant_id t) true false ]
      && elim q.goal_contains [
        | none ↦ true
        | some t ↦ is_empty t || has_text (lower t) (lower r.goal)
      ]
      && elim q.created_after [ none ↦ true | some a ↦ leb a r.created_at ]
      && elim q.created_before [ none ↦ true | some b ↦ leb r.created_at b ]

  -- the rows that the query asks for, in its order
  abbrev pub found : SessionQuery → SessionRegistry → List SessionRow
  found q g = sort_by (in_order q) (keep (matches q) (rows g))

  unfoldable pub list_sessions : SessionQuery → SessionRegistry → Result SessionPage
  list_sessions q g = elim q.page [
    | negsuc n ↦ err (value_error "page and page_size must be positive")
    | pos zero ↦ err (value_error "page and page_size must be positive")
    | pos (suc n) ↦ elim q.page_size [
      | negsuc k ↦ err (value_error "page and page_size must be positive")
      | pos zero ↦ err (value_error "page and page_size must be positive")
      | pos (suc k) ↦
          if not (member text_dec q.sort_key sort_keys)
          then err (value_error "sort_by must be one of created_at,last_accessed_at,expires_at")
          else if not (member text_dec q.sort_order sort_orders)
          then err (value_error "sort_order must be asc or desc")
          else ok (record {
            items = take (suc k) (drop (n * suc k) (found q g));
            total = length (found q g);
            query = q;
          })
    ]
  ]
