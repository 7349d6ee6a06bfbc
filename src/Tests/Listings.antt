-- ===== src/Tests/Listings.antt =====
-- Runs of `list_sessions` of src/project_mimic/session_lifecycle.py.
use project_mimic.Prelude.{
  sort_by, place_by, length, keep, take, All, leb, text_dec, ok, String, ◌≡◌, refl, true, none,
  some, List, [], arith,
}
use project_mimic.Json.{pos}
use project_mimic.Environment as episodes
use project_mimic.Session.Types.{SessionRegistry, running}
use project_mimic.Session.{create}
use project_mimic.Session.Listing.{
  has_text, starts_with, SessionQuery, SessionRow, SessionPage, rows, matches, found, list_sessions,
}
use project_mimic.Session.Listing.Order.{by_creation, descending, IsOrdered}
use project_mimic.Session.Listing.Pages.{pages, pages-found, list_sessions_lem}

abbrev same : String → String
same s = s

abbrev empty_registry : SessionRegistry
empty_registry = record { ttl = 60; records = []; checkpoints = []; metadata = [] }

abbrev two_sessions : SessionRegistry
two_sessions =
    (create "search" 3 "acme" "s2" 20 (create "log in" 3 "acme" "s1" 10 empty_registry).1).1

abbrev query : SessionQuery
query = record {
  status = some running;
  goal_contains = some "o";
  created_after = none;
  created_before = none;
  sort_key = "created_at";
  sort_order = "desc";
  page = pos 1;
  page_size = pos 1;
  tenant_id = some "acme";
}

pages-found_example :
    (shown : List SessionRow) × (pages same query 2 two_sessions ≡ ok shown)
    × IsOrdered by_creation descending shown
    × (length (keep (λ r. leb 15 r.created_at) shown)
        ≡ length (keep (λ r. leb 15 r.created_at) (keep (matches same query) (rows two_sessions))))
unfolding text_dec create matches sort_by place_by episodes.new has_text episodes.reset starts_with
pages-found_example =
    pages-found same query 0 2 two_sessions by_creation descending (λ r. leb 15 r.created_at) refl
      refl refl (omega arith)

abbrev first_page : SessionPage
first_page = record {
  items = take 1 (found same query two_sessions);
  total = length (found same query two_sessions);
  query = query;
}

list_sessions_lem_example :
    All
      (λ (r : SessionRow). (r.tenant_id ≡ "acme") × (matches same query r ≡ true))
      first_page.items
    × (first_page.total ≡ length (keep (matches same query) (rows two_sessions)))
unfolding text_dec list_sessions
list_sessions_lem_example = list_sessions_lem same query "acme" two_sessions first_page refl refl
