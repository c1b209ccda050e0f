-- ===== src/Calendar/Library.antt =====
-- What the calendar service takes from elsewhere: the `exchange_calendars` library, which is not
-- part of the repository, and `str.strip().upper()`. The laws state what the service relies on.
use nivara.Prelude.{ℕ, ◌≤◌, ◌<◌, String, ◌≡◌, Bool, true, ◌&&◌, Option, some, leb, ltb}

pub record Library : Type 0 where
  -- `value.strip().upper()`
  pub strip_upper : String → String
  -- `ts.astimezone(cal.tz).date()`
  pub local_date : String → ℕ → ℕ
  -- `cal.is_trading_minute(ts)`; `none` where it raises
  pub is_trading_minute : String → ℕ → Option Bool
  -- Whether a date lies between the first and the last that `cal` knows; it raises `DateOutOfBounds`
  -- outside of them.
  pub in_bounds : String → ℕ → Bool
  -- `cal.is_session(date)` of a date in bounds
  pub is_session : String → ℕ → Bool
  pub session_open : String → ℕ → ℕ
  pub session_close : String → ℕ → ℕ
  -- An exchange code in its canonical spelling stays.
  pub strip_upper_mic :
      (strip_upper "XNYS" ≡ "XNYS") × (strip_upper "XNAS" ≡ "XNAS") × (strip_upper "XBOM" ≡ "XBOM")
  pub open-lt-close :
      (mic : String) (date : ℕ)
      → is_session mic date ≡ true
      → session_open mic date < session_close mic date
  -- A session lies on its local date.
  pub local_date-session :
      (mic : String) (date ts : ℕ)
      → is_session mic date ≡ true
      → session_open mic date ≤ ts
      → ts ≤ session_close mic date
      → local_date mic ts ≡ date
  pub known_in_bounds :
      (mic : String) (ts : ℕ) (b : Bool)
      → is_trading_minute mic ts ≡ some b
      → in_bounds mic (local_date mic ts) ≡ true
  -- Where it answers, a trading minute is one from the open up to, not at, the close.
  pub trading_minute :
      (mic : String) (ts : ℕ) (b : Bool)
      → is_trading_minute mic ts ≡ some b
      → b ≡ (
          let date = local_date mic ts in
          is_session mic date
          && (leb (session_open mic date) ts && ltb ts (session_close mic date)))
