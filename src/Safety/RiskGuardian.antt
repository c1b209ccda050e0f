-- ===== src/Safety/RiskGuardian.antt =====
-- backend/app/safety/risk_guardian.py: alerts on the holdings of all users. The tables are lists of
-- rows, and an id or a pair of ids is the key of a row.
pub mod Volatility
pub mod Earnings
pub mod Macro
pub mod Run
mod Examples
use nivara.Prelude.{ℕ, String, Bool, Option, none, some, List, [], ◌∷◌, ◌==◌, if◌then◌else◌}
use nivara.Portfolio.Symbols.{Instrument}

-- The `payload` of each kind of alert; a date is the number of its day.
pub data Payload (F : Type 0) : Type 0 where
  -- symbol, today_range, adr, multiplier
  volatility : String → F → F → F → Payload F
  -- symbol, earnings_date, days_until
  earnings : String → ℕ → ℕ → Payload F
  -- series_id, latest, previous, delta, latest_date
  macro : String → F → F → F → Option String → Payload F

pub record AlertEvent (F : Type 0) : Type 0 where
  pub user_id : ℕ
  pub notification_type : String
  pub title : String
  pub body : String
  pub payload : Payload F

pub data ℤ : Type 0 where
  pos negsuc : ℕ → ℤ

-- The quantity counts the units of the column's last decimal place.
pub record Position : Type 0 where
  pub broker_connection_id : ℕ
  pub instrument_id : ℕ
  pub quantity : ℤ

pub record Connection : Type 0 where
  pub id : ℕ
  pub user_id : ℕ

-- What the detectors read of the database, besides the positions.
pub record Tables : Type 0 where
  pub connections : List Connection
  pub instruments : List Instrument

-- `_user_id_for_connection`
abbrev pub find_owner : ℕ → List Connection → Option ℕ
find_owner id [] = none
find_owner id (row ∷ rows) = if row.id == id then some row.user_id else find_owner id rows

-- `_load_instrument`
abbrev pub find_instrument : ℕ → List Instrument → Option Instrument
find_instrument id [] = none
find_instrument id (row ∷ rows) = if row.id == id then some row else find_instrument id rows

pub record Holding : Type 0 where
  pub user_id : ℕ
  pub instrument : Instrument

-- The owner and the instrument of a position; `none` where the loop goes on to the next one.
abbrev pub holding_from : Option ℕ → Option Instrument → Option Holding
holding_from none instrument = none
holding_from (some user_id) none = none
holding_from (some user_id) (some instrument) =
    some (record { user_id = user_id; instrument = instrument })

unfoldable pub holding_of : Tables → Position → Option Holding
holding_of t position =
    holding_from (find_owner position.broker_connection_id t.connections)
      (find_instrument position.instrument_id t.instruments)
