-- ===== src/Safety/KillSwitch.antt =====
-- backend/app/safety/kill_switch.py: a flag in Redis for each user, and an audit row for each flip.
use nivara.Prelude.{ℕ, String, Bool, true, false, none, some, List, is_some}
use nivara.Redis.Values.{Values}
use nivara.Safety.Audit.{AuditLog, record_entry}
use nivara.Safety.Decision.{EventData, active}

-- `safety:kill_switch:{user_id}`
pub data FlagKey : Type 0 where
  kill_switch_key : ℕ → FlagKey

abbrev pub event_activated : String
event_activated = "safety.kill_switch_activated"

abbrev pub event_deactivated : String
event_deactivated = "safety.kill_switch_deactivated"

module _ (flags : Values FlagKey String) where
  unfoldable pub is_active : ℕ → ℕ → flags.Store → Bool
  is_active user_id now s = is_some (flags.get (kill_switch_key user_id) now s)

module _ (flags : Values FlagKey String) (Num Float : Type 0) where
  -- The flags in Redis and the audit rows of the session.
  pub record Switches : Type 0 where
    pub store : flags.Store
    pub rows : List (AuditLog (EventData Num Float))

  abbrev pub flip_row : ℕ → String → Bool → AuditLog (EventData Num Float)
  flip_row user_id event on = record {
    user_id = some user_id;
    event_type = event;
    event_data = some (active on);
    ip_address = none;
    user_agent = none;
  }

  -- Returns the new state and the `active` of the answer.
  unfoldable pub activate : ℕ → ℕ → Switches → Bool × Switches
  activate user_id now s = (
    true,
    record {
      store = flags.set (kill_switch_key user_id) "1" none now s.store;
      rows = record_entry (flip_row user_id event_activated true) s.rows;
    },
  )

  unfoldable pub deactivate : ℕ → Switches → Switches
  deactivate user_id s = record {
    store = flags.delete (kill_switch_key user_id) s.store;
    rows = record_entry (flip_row user_id event_deactivated false) s.rows;
  }
