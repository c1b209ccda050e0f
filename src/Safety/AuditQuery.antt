-- ===== src/Safety/AuditQuery.antt =====
-- backend/app/safety/audit_query.py. `order` is the database's `ORDER BY occurred_at DESC`, which says
-- nothing of rows with the same time; a negative OFFSET is refused.
pub mod Pages
mod Examples
use text.Mathlib.Text.{starts_with}
use nivara.Prelude.{
  ℕ, zero, suc, ◌-◌, ◌*◌, ◌==◌, String, Bool, true, false, not, ◌&&◌, Option, none, some, List, [],
  ◌∷◌, str_eq, length, if◌then◌else◌,
}
use nivara.Safety.Audit.{AuditLog}

-- A row with what the database gives it.
pub record Entry (D : Type 0) : Type 0 where
  pub id : ℕ
  pub occurred_at : ℕ
  pub row : AuditLog D

pub record AuditLogPage (D : Type 0) : Type 0 where
  pub items : List (Entry D)
  pub page : ℕ
  pub per_page : ℕ
  pub total : ℕ

module _ {D : Type 0} where
  -- `.limit(n)` and `.offset(n)`
  abbrev pub take : ℕ → List (Entry D) → List (Entry D)
  take zero rows = []
  take (suc n) [] = []
  take (suc n) (e ∷ rows) = e ∷ take n rows

  abbrev pub drop : ℕ → List (Entry D) → List (Entry D)
  drop zero rows = rows
  drop (suc n) [] = []
  drop (suc n) (e ∷ rows) = drop n rows

  abbrev pub is_owned : ℕ → Entry D → Bool
  is_owned user_id e = elim e.row.user_id [ none ↦ false | some owner ↦ owner == user_id ]

  -- `filters` of `page`
  abbrev pub is_listed : ℕ → Option String → Entry D → Bool
  is_listed user_id event_type e =
      is_owned user_id e
      && elim event_type [ none ↦ true | some wanted ↦ str_eq e.row.event_type wanted ]

  abbrev pub where_true : (Entry D → Bool) → List (Entry D) → List (Entry D)
  where_true test [] = []
  where_true test (e ∷ rows) = let rest = where_true test rows in if test e then e ∷ rest else rest

  -- `AuditLogQuery.recent_safety_events`
  unfoldable pub recent_safety_events :
      (List (Entry D) → List (Entry D)) → ℕ → ℕ → List (Entry D) → List (Entry D)
  recent_safety_events order user_id limit rows =
      take limit (
        order (where_true (λ e. is_owned user_id e && starts_with e.row.event_type "safety.") rows))

  -- `AuditLogQuery.page`; none where the database refuses the offset.
  unfoldable pub page :
      (List (Entry D) → List (Entry D))
      → ℕ
      → ℕ
      → ℕ
      → Option String
      → List (Entry D)
      → Option (AuditLogPage D)
  page order user_id number per_page event_type rows =
      let listed = where_true (is_listed user_id event_type) rows in
      if number == 0 && not (per_page == 0)
      then none
      else some (record {
        items = take per_page (drop ((number - 1) * per_page) (order listed));
        page = number;
        per_page = per_page;
        total = length listed;
      })
