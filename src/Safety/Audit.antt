-- ===== src/Safety/Audit.antt =====
-- backend/app/services/audit.py: the append-only audit log. The session's table is the list of its
-- rows in the order of insertion.
use nivara.Prelude.{ℕ, String, Option, List, [], ◌∷◌, ◌++◌}

pub record AuditLog (D : Type 0) : Type 0 where
  pub user_id : Option ℕ
  pub event_type : String
  pub event_data : Option D
  pub ip_address : Option String
  pub user_agent : Option String

-- `AuditService.record`: the rows with the new entry behind them.
abbrev pub record_entry : {D : Type 0} → AuditLog D → List (AuditLog D) → List (AuditLog D)
record_entry entry rows = rows ++ entry ∷ []

abbrev pub event_portfolio_sync : String
event_portfolio_sync = "portfolio.sync"
