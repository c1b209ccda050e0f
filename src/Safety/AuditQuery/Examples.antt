-- ===== src/Safety/AuditQuery/Examples.antt =====
-- Pages of a small audit log (backend/app/safety/audit_query.py).
use nivara.Prelude.{ℕ, ◌==◌, String, Bool, ◌&&◌, none, some, List, [], ◌∷◌, ◌≡◌, refl, arith}
use nivara.Safety.AuditQuery.{Entry, is_listed, where_true, recent_safety_events}
use nivara.Safety.AuditQuery.Pages.{is_wanted, count, read_pages, read_pages_complete}

abbrev entry : ℕ → ℕ → ℕ → String → Entry ℕ
entry id occurred_at user_id event_type = record {
  id = id;
  occurred_at = occurred_at;
  row = record {
    user_id = some user_id;
    event_type = event_type;
    event_data = none;
    ip_address = none;
    user_agent = none;
  };
}

-- The newest row first.
abbrev log : List (Entry ℕ)
log =
    entry 4 90 7 "portfolio.sync"
    ∷ entry 3 80 7 "safety.violation"
    ∷ entry 2 70 8 "safety.violation"
    ∷ entry 1 60 7 "safety.violation"
    ∷ []

abbrev as_stored : List (Entry ℕ) → List (Entry ℕ)
as_stored rows = rows

abbrev is_third : Entry ℕ → Bool
is_third e = e.id == 3

read_pages_complete_example :
    let pages = read_pages as_stored 7 2 none log 2 in
    (pages ≡ as_stored (where_true (is_listed 7 none) log))
    × (count is_third pages ≡ count (λ e. is_wanted 7 none e && is_third e) log)
read_pages_complete_example =
    read_pages_complete as_stored 7 2 none log 2 is_third (λ listed t. refl) (omega arith)

newest_safety_event : recent_safety_events as_stored 7 1 log ≡ entry 3 80 7 "safety.violation" ∷ []
unfolding recent_safety_events
newest_safety_event = refl
