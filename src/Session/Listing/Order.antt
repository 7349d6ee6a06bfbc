-- ===== src/Session/Listing/Order.antt =====
-- The orders in which `list_sessions` of src/project_mimic/session_lifecycle.py may be asked for rows.
use project_mimic.Prelude.{
  All-weaken, IsSortedBy, sort_by-IsSortedBy, keep, All, member, leb→le, text_dec, ℕ, ◌≤◌, String,
  ◌≡◌, refl, sym, ap, ◌∙◌, true, false, List, [], ◌∷◌, arith,
}
use project_mimic.Session.Types.{SessionRegistry}
use project_mimic.Session.Listing.{
  SessionQuery, SessionRow, sort_keys, sort_orders, in_order, rows, matches, found,
}

-- the values of a row that may order it, and the directions
pub data SortField : Type 0 where
  by_creation : SortField
  by_last_access : SortField
  by_expiry : SortField

pub data Direction : Type 0 where
  ascending : Direction
  descending : Direction

-- how a query names them
abbrev pub field_name : SortField → String
field_name by_creation = "created_at"
field_name by_last_access = "last_accessed_at"
field_name by_expiry = "expires_at"

abbrev pub direction_name : Direction → String
direction_name ascending = "asc"
direction_name descending = "desc"

abbrev pub field_of : SortField → SessionRow → ℕ
field_of by_creation r = r.created_at
field_of by_last_access r = r.last_accessed_at
field_of by_expiry r = r.expires_at

abbrev pub Precedes : SortField → Direction → SessionRow → SessionRow → Type 0
Precedes f ascending x y = field_of f x ≤ field_of f y
Precedes f descending x y = field_of f y ≤ field_of f x

-- every row precedes all the rows after it
abbrev pub IsOrdered : SortField → Direction → List SessionRow → Type 0
IsOrdered f d [] = Unit
IsOrdered f d (x ∷ xs) = All (λ y. Precedes f d x y) xs × IsOrdered f d xs

pub member-sort_keys :
    (f : SortField) (k : String) → k ≡ field_name f → member text_dec k sort_keys ≡ true
unfolding text_dec
member-sort_keys by_creation k e = ap (λ k. member text_dec k sort_keys) e
member-sort_keys by_last_access k e = ap (λ k. member text_dec k sort_keys) e
member-sort_keys by_expiry k e = ap (λ k. member text_dec k sort_keys) e

pub member-sort_orders :
    (d : Direction) (o : String) → o ≡ direction_name d → member text_dec o sort_orders ≡ true
unfolding text_dec
member-sort_orders ascending o e = ap (λ o. member text_dec o sort_orders) e
member-sort_orders descending o e = ap (λ o. member text_dec o sort_orders) e

in_order_trans :
    (q : SessionQuery) (x y z : SessionRow)
    → in_order q x y ≡ true
    → in_order q y z ≡ true
    → in_order q x z ≡ true
in_order_trans q x y z h i = ground arith

in_order_total :
    (q : SessionQuery) (x y : SessionRow) → in_order q x y ≡ false → in_order q y x ≡ true
in_order_total q x y h = ground arith

-- the query with the names of a field and a direction
abbrev named : SortField → Direction → SessionQuery → SessionQuery
named f d q = record q { sort_key = field_name f; sort_order = direction_name d }

in_order-named :
    (f : SortField) (d : Direction) (q : SessionQuery) (x y : SessionRow)
    → q.sort_key ≡ field_name f
    → q.sort_order ≡ direction_name d
    → in_order q x y ≡ in_order (named f d q) x y
in_order-named f d q x y key order = rw (key, order) refl

Precedes-named :
    (f : SortField) (d : Direction) (q : SessionQuery) (x y : SessionRow)
    → in_order (named f d q) x y ≡ true
    → Precedes f d x y
unfolding text_dec
Precedes-named by_creation ascending q x y h = leb→le _ _ h
Precedes-named by_creation descending q x y h = leb→le _ _ h
Precedes-named by_last_access ascending q x y h = leb→le _ _ h
Precedes-named by_last_access descending q x y h = leb→le _ _ h
Precedes-named by_expiry ascending q x y h = leb→le _ _ h
Precedes-named by_expiry descending q x y h = leb→le _ _ h

in_order-Precedes :
    (f : SortField) (d : Direction) (q : SessionQuery) (x y : SessionRow)
    → q.sort_key ≡ field_name f
    → q.sort_order ≡ direction_name d
    → in_order q x y ≡ true
    → Precedes f d x y
in_order-Precedes f d q x y key order h =
    Precedes-named f d q x y (sym (in_order-named f d q x y key order) ∙ h)

IsOrdered-found :
    (f : SortField) (d : Direction) (q : SessionQuery) (xs : List SessionRow)
    → q.sort_key ≡ field_name f
    → q.sort_order ≡ direction_name d
    → IsSortedBy (in_order q) xs
    → IsOrdered f d xs
IsOrdered-found f d q [] key order s = tt
IsOrdered-found f d q (x ∷ xs) key order s = (
  All-weaken xs (λ y. in_order-Precedes f d q x y key order) s.0,
  IsOrdered-found f d q xs key order s.1,
)

pub found-IsOrdered :
    (lower : String → String) (f : SortField) (d : Direction) (q : SessionQuery)
    (g : SessionRegistry)
    → q.sort_key ≡ field_name f
    → q.sort_order ≡ direction_name d
    → IsOrdered f d (found lower q g)
found-IsOrdered lower f d q g key order = IsOrdered-found f d q (found lower q g) key order (
    sort_by-IsSortedBy (in_order q) (in_order_trans q) (in_order_total q)
      (keep (matches lower q) (rows g)))
