-- ===== src/Session/Listing/Pages.antt =====
-- The pages of `list_sessions` of src/project_mimic/session_lifecycle.py.
use project_mimic.Prelude.{
  keep-sort_by, length-sort_by, All-sort_by, length, keep, take, drop, All, member, Bool-cases,
  text_dec, Result, ok, err, ℕ, zero, suc, ◌+◌, ◌*◌, ◌≤◌, String, ◌≡◌, refl, sym, ap, ◌∙◌, subst,
  inl, inr, Bool, true, some, List, [], ◌∷◌, ◌++◌, arith,
}
use project_mimic.Json.{ℤ, pos, negsuc}
use project_mimic.Session.Types.{SessionRegistry}
use project_mimic.Session.Listing.Order.{
  SortField, Direction, field_name, direction_name, IsOrdered, member-sort_keys, member-sort_orders,
  found-IsOrdered,
}
use project_mimic.Session.Listing.{
  SessionQuery, SessionRow, SessionPage, sort_keys, sort_orders, in_order, rows, matches, found,
  list_sessions,
}

All-keep :
    {A : Type 0} (P : A → Type 0) (p : A → Bool) (xs : List A)
    → ((x : A) → p x ≡ true → P x)
    → All P (keep p xs)
All-keep P p [] f = tt
All-keep P p (x ∷ xs) f = elim (Bool-cases (p x)) [
  | inl kept ↦ rw kept (f x kept, All-keep P p xs f)
  | inr gone ↦ rw gone (All-keep P p xs f)
]

All-take : {A : Type 0} (P : A → Type 0) (n : ℕ) (xs : List A) → All P xs → All P (take n xs)
All-take P zero xs a = tt
All-take P (suc n) [] a = tt
All-take P (suc n) (x ∷ xs) a = (a.0, All-take P n xs a.1)

All-drop : {A : Type 0} (P : A → Type 0) (n : ℕ) (xs : List A) → All P xs → All P (drop n xs)
All-drop P zero xs a = a
All-drop P (suc n) [] a = tt
All-drop P (suc n) (x ∷ xs) a = All-drop P n xs a.1

take_nil : {A : Type 0} (n : ℕ) → take {A = A} n [] ≡ []
take_nil zero = refl
take_nil (suc n) = refl

take-drop : {A : Type 0} (m n : ℕ) (xs : List A) → take m xs ++ take n (drop m xs) ≡ take (m + n) xs
take-drop zero n xs = ap (λ k. take k xs) (let e : n ≡ 0 + n = omega arith in e)
take-drop (suc m) n [] = take_nil n ∙ sym (take_nil (suc m + n))
take-drop (suc m) n (x ∷ xs) =
    ap (λ ys. x ∷ ys) (take-drop m n xs)
    ∙ ap (λ k. take k (x ∷ xs)) (let e : suc (m + n) ≡ suc m + n = omega arith in e)

take_all : {A : Type 0} (n : ℕ) (xs : List A) → length xs ≤ n → take n xs ≡ xs
take_all zero [] h = refl
take_all zero (x ∷ xs) h = absurd (omega arith)
take_all (suc n) [] h = refl
take_all (suc n) (x ∷ xs) h = ap (λ ys. x ∷ ys) (take_all n xs (omega arith))

-- the rows of the first pages, one page after the other
abbrev pub pages :
    (lower : String → String) → SessionQuery → ℕ → SessionRegistry → Result (List SessionRow)
pages lower q zero g = ok []
pages lower q (suc n) g = elim (pages lower q n g) [
  | err e ↦ err e
  | ok xs ↦ elim (list_sessions lower (record q { page = pos (suc n) }) g) [
    | err e ↦ err e
    | ok p ↦ ok (xs ++ p.items)
  ]
]

module _ (lower : String → String) (q : SessionQuery) (k : ℕ) (g : SessionRegistry)
    (size : q.page_size ≡ pos (suc k)) (key : member text_dec q.sort_key sort_keys ≡ true)
    (order : member text_dec q.sort_order sort_orders ≡ true) where
  list_page :
      (n : ℕ)
      → list_sessions lower (record q { page = pos (suc n) }) g
        ≡ ok (record {
          items = take (suc k) (drop (n * suc k) (found lower q g));
          total = length (found lower q g);
          query = record q { page = pos (suc n) };
        })
  unfolding list_sessions matches
  list_page n =
      let same : found lower (record q { page = pos (suc n) }) g ≡ found lower q g = refl in
      ground (arith, size, key, order, same)

  pages-take : (n : ℕ) → pages lower q n g ≡ ok (take (n * suc k) (found lower q g))
  pages-take zero =
      ap (λ j. ok (take j (found lower q g))) (let e : 0 ≡ 0 * suc k = omega arith in e)
  pages-take (suc n) =
      rw (pages-take n, list_page n)
        (ap (λ xs. ok xs)
          (take-drop (n * suc k) (suc k) (found lower q g)
            ∙ ap (λ j. take j (found lower q g))
                (let e : n * suc k + suc k ≡ suc n * suc k = grind arith in e)))

-- The pages of a query whose `sort_by` and `sort_order` name a field and a direction, as many as
-- hold the total, show the rows that the tests of the query accept, each as often as it is there (so
-- that any test counts as many of the rows shown as of the rows accepted), and in that order: by the
-- field that `sort_by` names, a row is not above the rows after it for `asc`, not below them for
-- `desc`.
pub pages-found :
    (lower : String → String) (q : SessionQuery) (k n : ℕ) (g : SessionRegistry) (f : SortField)
    (d : Direction) (test : SessionRow → Bool)
    → q.page_size ≡ pos (suc k)
    → q.sort_key ≡ field_name f
    → q.sort_order ≡ direction_name d
    → length (keep (matches lower q) (rows g)) ≤ n * suc k
    → (shown : List SessionRow) × (pages lower q n g ≡ ok shown)
      × IsOrdered f d shown
      × (length (keep test shown) ≡ length (keep test (keep (matches lower q) (rows g))))
pages-found lower q k n g f d test size key order enough =
    let accepted = keep (matches lower q) (rows g) in
    let whole = length-sort_by (in_order q) accepted in
    let one_by_one =
      pages-take lower q k g size (member-sort_keys f q.sort_key key)
        (member-sort_orders d q.sort_order order) n in
    (
      found lower q g,
      one_by_one ∙ ap (λ xs. ok xs) (take_all (n * suc k) (found lower q g) (omega arith)),
      found-IsOrdered lower f d q g key order,
      keep-sort_by (in_order q) test accepted,
    )

-- what a page that is shown holds
abbrev IsPageOf : (String → String) → SessionQuery → SessionRegistry → SessionPage → Type 0
IsPageOf lower q g p =
    (n : ℕ) × (k : ℕ) × (p.items ≡ take k (drop n (found lower q g)))
    × (p.total ≡ length (found lower q g))

list_sessions-IsPageOf :
    (lower : String → String) (q : SessionQuery) (g : SessionRegistry) (p : SessionPage) (a b : ℤ)
    → q.page ≡ a
    → q.page_size ≡ b
    → list_sessions lower q g ≡ ok p
    → IsPageOf lower q g p
unfolding list_sessions
list_sessions-IsPageOf lower q g p (negsuc n) b ea eb done = absurd (ground (arith, ea, done))
list_sessions-IsPageOf lower q g p (pos zero) b ea eb done = absurd (ground (arith, ea, done))
list_sessions-IsPageOf lower q g p (pos (suc n)) (negsuc k) ea eb done =
    absurd (ground (arith, ea, eb, done))
list_sessions-IsPageOf lower q g p (pos (suc n)) (pos zero) ea eb done =
    absurd (ground (arith, ea, eb, done))
list_sessions-IsPageOf lower q g p (pos (suc n)) (pos (suc k)) ea eb done =
    elim (Bool-cases (member text_dec q.sort_key sort_keys)) [
      | inr odd ↦ absurd (ground (arith, ea, eb, odd, done))
      | inl key ↦ elim (Bool-cases (member text_dec q.sort_order sort_orders)) [
        | inr odd ↦ absurd (ground (arith, ea, eb, key, odd, done))
        | inl order ↦ (
          n * suc k,
          suc k,
          ground (arith, ea, eb, key, order, done),
          ground (arith, ea, eb, key, order, done),
        )
      ]
    ]

abbrev Asked : (String → String) → SessionQuery → String → SessionRow → Type 0
Asked lower q t r = (r.tenant_id ≡ t) × (matches lower q r ≡ true)

matches-tenant :
    (lower : String → String) (q : SessionQuery) (r : SessionRow) (t : String)
    → matches lower q r ≡ true
    → q.tenant_id ≡ some t
    → r.tenant_id ≡ t
unfolding matches
matches-tenant lower q r t m tenant = elim (text_dec r.tenant_id t) [
  | yes e ↦ e
  | no ne ↦ absurd (ground (arith, m, tenant, ne))
]

-- The rows of a page are rows that the query asks for: a page that is asked for one tenant has no row
-- of another, and its total counts the rows that the tests of the query accept.
pub list_sessions_lem :
    (lower : String → String) (q : SessionQuery) (t : String) (g : SessionRegistry)
    (p : SessionPage)
    → list_sessions lower q g ≡ ok p
    → q.tenant_id ≡ some t
    → All (λ (r : SessionRow). (r.tenant_id ≡ t) × (matches lower q r ≡ true)) p.items
      × (p.total ≡ length (keep (matches lower q) (rows g)))
list_sessions_lem lower q t g p done tenant =
    let (n, k, items, total) =
      list_sessions-IsPageOf lower q g p q.page q.page_size refl refl done in
    let kept =
      All-keep (Asked lower q t) (matches lower q) (rows g)
        (λ r m. (matches-tenant lower q r t m tenant, m)) in
    let placed =
      All-sort_by (in_order q) (Asked lower q t) (keep (matches lower q) (rows g)) kept in
    (
      subst (All (Asked lower q t)) (sym items) (
          All-take (Asked lower q t) k (drop n (found lower q g))
            (All-drop (Asked lower q t) n (found lower q g) placed)),
      total ∙ length-sort_by (in_order q) (keep (matches lower q) (rows g)),
    )
