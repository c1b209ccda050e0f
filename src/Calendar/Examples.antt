-- ===== src/Calendar/Examples.antt =====
-- Tests of the calendar service, on a library whose sessions are the days that are not Sundays.
use nivara.Prelude.{
  ℕ, ◌+◌, ◌*◌, ◌/◌, ◌%◌, ◌≡◌, refl, Bool, true, false, not, ◌&&◌, some, List, [], ◌∷◌, ◌==◌, str_eq,
  arith, leb, ltb, if◌then◌else◌,
}
use nivara.Calendar.Library.{Library}
use nivara.Calendar.Service.{
  value, ◌>>=◌, aware, CalendarOverride, override, normalize_exchange, override_for,
  get_session_hours, is_market_open, next_session_close, closed_hours, upsert_closed,
  record_unexpected_closed, seed_to_mic,
}
use nivara.Calendar.Service.Hours.{within_hours, is_market_open-get_session_hours}
use nivara.Calendar.Service.Close.{IsFirst, next_session_close-IsFirst}
use nivara.Calendar.Service.Override.{count, closing_row, closed-record_unexpected_closed}
use nivara.Calendar.Verify.{DriftReport, default_exchanges, verify_calendars}
use nivara.Calendar.Verify.Drifts.{drift_count, mentions, should_report, verify_calendars-drifts}

pub answered : {a b : Bool} → some a ≡ some b → b ≡ a
answered h = ground (arith, h)

-- A session from 14:30 to 21:00 on every day that is no multiple of seven.
abbrev pub six_days : Library
six_days = record {
  strip_upper = λ s. if str_eq s "nyse" then "NYSE" else s;
  local_date = λ mic ts. ts / 86400;
  is_trading_minute = λ mic ts. some (
      not (ts / 86400 % 7 == 0)
      && (leb (ts / 86400 * 86400 + 52200) ts && ltb ts (ts / 86400 * 86400 + 75600)));
  in_bounds = λ mic date. true;
  is_session = λ mic date. not (date % 7 == 0);
  session_open = λ mic date. date * 86400 + 52200;
  session_close = λ mic date. date * 86400 + 75600;
  strip_upper_mic = (refl, refl, refl);
  open-lt-close = λ mic date h. omega arith;
  local_date-session = λ mic date ts h lo hi. omega (arith, lo, hi);
  known_in_bounds = λ mic ts b h. refl;
  trading_minute = λ mic ts b h. answered h;
}

-- Noon of the eighth day.
abbrev noon : ℕ
noon = 8 * 86400 + 43200

nyse : normalize_exchange six_days "nyse" ≡ value "XNYS"
unfolding normalize_exchange seed_to_mic
nyse = refl

is_market_open-get_session_hours_example :
    is_market_open six_days [] "nyse" (aware noon)
    ≡ (do h ← get_session_hours six_days [] "nyse" 8; value (within_hours h noon))
is_market_open-get_session_hours_example =
    is_market_open-get_session_hours six_days [] "nyse" "XNYS" noon false nyse refl

next_session_close-IsFirst_example :
    IsFirst six_days [] "XNYS" noon 8 20 (next_session_close six_days [] "nyse" (aware noon))
next_session_close-IsFirst_example = next_session_close-IsFirst six_days [] "nyse" "XNYS" noon nyse

-- The rows after the eighth day was closed.
abbrev closed_eighth : List CalendarOverride
closed_eighth = closing_row "XNYS" 8 "storm" ∷ []

eighth_closed : record_unexpected_closed six_days "nyse" 8 "storm" [] ≡ value closed_eighth
unfolding record_unexpected_closed normalize_exchange seed_to_mic upsert_closed
eighth_closed = refl

closed-record_unexpected_closed_example :
    (get_session_hours six_days closed_eighth "nyse" 8 ≡ value (closed_hours "XNYS" 8 override))
    × (is_market_open six_days closed_eighth "nyse" (aware noon) ≡ value false)
    × (override_for "XBOM" 8 closed_eighth ≡ override_for "XBOM" 8 [])
    × (count "XNYS" 8 closed_eighth ≡ 1)
closed-record_unexpected_closed_example =
    closed-record_unexpected_closed six_days "nyse" "XNYS" "XBOM" "storm" 8 8 noon [] closed_eighth
      nyse eighth_closed refl (omega arith)

-- A row that opens the seventh day, which the library closes, and one that agrees with it.
abbrev week_rows : List CalendarOverride
week_rows =
    record { exchange = "XNYS"; date = 14; is_open = true; reason = "" }
    ∷ record { exchange = "XNYS"; date = 15; is_open = true; reason = "checked" }
    ∷ []

one_drift :
    verify_calendars six_days 16 ("XNYS" ∷ []) 14 8 100 week_rows
    ≡ some (record {
      run_at = 100;
      exchanges_checked = "XNYS" ∷ [];
      horizon_days = 14;
      drifts =
          record {
            exchange = "XNYS";
            on = 14;
            library_says_open = false;
            override_says_open = true;
            reason = "(no reason recorded)";
          }
          ∷ [];
    })
unfolding verify_calendars
one_drift = refl

verify_calendars-drifts_example :
    (report : DriftReport) × (verify_calendars six_days 16 default_exchanges 14 8 100 week_rows
      ≡ some report)
    × (drift_count "XNYS" 14 report.drifts
        ≡ mentions "XNYS" default_exchanges
          * (if should_report six_days "XNYS" 14 8 14 week_rows then 1 else 0))
verify_calendars-drifts_example =
    verify_calendars-drifts six_days 16 "XNYS" 14 8 14 100 default_exchanges week_rows (omega arith)
