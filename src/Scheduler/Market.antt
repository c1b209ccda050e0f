-- ===== src/Scheduler/Market.antt =====
-- The scheduler's view of a market against the calendar's.
use nivara.Prelude.{ℕ, String, ◌≡◌, Bool, true, false, some, List, arith, ◌∙◌}
use nivara.Calendar.Library.{Library}
use nivara.Calendar.Service.{
  value, ◌>>=◌, aware, CalendarOverride, SessionHours, normalize_exchange, is_market_open,
  get_session_hours, session_hours,
}
use nivara.Calendar.Service.Hours.{within_hours, is_market_open-get_session_hours}
use nivara.Scheduler.Plan.{MarketState, open_now, snapshot, state_at, compute_market_state}

abbrev pub is_open_now : MarketState → Bool
is_open_now open_now = true
is_open_now _ = false

pub within_hours-snapshot :
    (mic : String) (now : ℕ) (h : SessionHours)
    → is_open_now (snapshot mic now h).state ≡ within_hours h now
unfolding snapshot state_at
within_hours-snapshot mic now h = ground arith

module _ (lib : Library) (rows : List CalendarOverride) where
  -- Where the library knows the minute, the scheduler takes a market for open exactly when
  -- `is_market_open` does.
  pub is_market_open-compute_market_state :
      (mic : String) (now : ℕ) (known : Bool)
      → normalize_exchange lib mic ≡ value mic
      → lib.is_trading_minute mic now ≡ some known
      → is_market_open lib rows mic (aware now)
        ≡ (do snap ← compute_market_state lib rows mic now; value (is_open_now snap.state))
  unfolding compute_market_state get_session_hours
  is_market_open-compute_market_state mic now known norm minute =
      let h = session_hours lib rows mic (lib.local_date mic now) in
      is_market_open-get_session_hours lib rows mic mic now known norm minute
      ∙ rw (norm, lib.known_in_bounds mic now known minute)
          (ground (arith, within_hours-snapshot mic now h))
