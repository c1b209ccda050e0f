-- ===== src/Calendar/Service.antt =====
-- `class CalendarService` and its helpers. `is_market_open` and `get_session_hours` read the
-- override rows; `record_unexpected_closed` writes them.
pub mod Hours
pub mod Close
pub mod Override
use nivara.Prelude.{
  ℕ, zero, suc, ◌+◌, ◌-◌, ◌*◌, String, Bool, true, false, not, ◌&&◌, ◌||◌, Option, none, some, List,
  [], ◌∷◌, ltb, leb, ◌==◌, str_eq, if◌then◌else◌,
}
use nivara.Calendar.Library.{Library}

pub data CalendarError : Type 0 where
  exchange_required naive_datetime : CalendarError
  unsupported : String → CalendarError
  no_upcoming_close date_out_of_bounds : String → ℕ → CalendarError

-- What a method returns or raises.
pub data Outcome (A : Type 0) : Type 0 where
  value : A → Outcome A
  raised : CalendarError → Outcome A

infixl 5 ◌>>=◌
abbrev pub ◌>>=◌ : {A B : Type 0} → Outcome A → (A → Outcome B) → Outcome B
value a >>= f = f a
raised e >>= f = raised e

-- A `datetime` with or without a time zone.
pub data Datetime : Type 0 where
  aware naive : ℕ → Datetime

unfoldable pub ensure_utc : Datetime → Outcome ℕ
ensure_utc (aware ts) = value ts
ensure_utc (naive ts) = raised naive_datetime

abbrev pub is_supported : String → Bool
is_supported mic = str_eq mic "XNYS" || (str_eq mic "XNAS" || str_eq mic "XBOM")

-- `_SEED_TO_MIC`
unfoldable pub seed_to_mic : String → Option String
seed_to_mic code =
    if str_eq code "NYSE"
    then some "XNYS"
    else if str_eq code "NASDAQ"
    then some "XNAS"
    else if str_eq code "ARCX"
    then some "XNYS"
    else if str_eq code "BATS"
    then some "XNYS"
    else if str_eq code "BSE"
    then some "XBOM"
    else if str_eq code "NSE"
    then some "XBOM"
    else none

abbrev pub or_unsupported : String → Option String → Outcome String
or_unsupported input none = raised (unsupported input)
or_unsupported input (some mic) = value mic

-- `calendar_overrides`, one row for an exchange and a date.
pub record CalendarOverride : Type 0 where
  pub exchange : String
  pub date : ℕ
  pub is_open : Bool
  pub reason : String

abbrev pub fits : String → ℕ → CalendarOverride → Bool
fits mic on row = str_eq row.exchange mic && row.date == on

unfoldable pub override_for : String → ℕ → List CalendarOverride → Option CalendarOverride
override_for mic on [] = none
override_for mic on (row ∷ rows) = if fits mic on row then some row else override_for mic on rows

-- `override is not None and not override.is_open`, and with `override.is_open`
abbrev pub forced_closed : Option CalendarOverride → Bool
forced_closed none = false
forced_closed (some row) = not row.is_open

abbrev pub forced_open : Option CalendarOverride → Bool
forced_open none = false
forced_open (some row) = row.is_open

pub data Source : Type 0 where
  override library closed : Source

pub record SessionHours : Type 0 where
  pub exchange : String
  pub session_date : ℕ
  pub is_open : Bool
  pub open_utc : Option ℕ
  pub close_utc : Option ℕ
  pub is_half_day : Bool
  pub source : Source

unfoldable pub typical_session_minutes : String → ℕ
typical_session_minutes mic = if str_eq mic "XBOM" then 375 else 390

-- An exception of the library counts as closed.
abbrev pub or_closed : Option Bool → Bool
or_closed none = false
or_closed (some b) = b

unfoldable pub closed_hours : String → ℕ → Source → SessionHours
closed_hours mic on source = record {
  exchange = mic;
  session_date = on;
  is_open = false;
  open_utc = none;
  close_utc = none;
  is_half_day = false;
  source = source;
}

-- The close of an open session that is not over at `ts`.
abbrev pub close_from : ℕ → SessionHours → Option ℕ
close_from ts hours =
    if hours.is_open
    then elim hours.close_utc [ none ↦ none | some c ↦ if leb ts c then some c else none ]
    else none

-- `return` out of the loop, or its next round.
abbrev pub or_next : Option ℕ → Outcome ℕ → Outcome ℕ
or_next none rest = rest
or_next (some c) rest = value c

-- The existing row is updated in place, and else a new one is inserted; the upsert of PostgreSQL
-- and the select-then-write path of other databases write the same rows.
unfoldable pub upsert_closed : String → ℕ → String → List CalendarOverride → List CalendarOverride
upsert_closed mic on reason [] =
    record { exchange = mic; date = on; is_open = false; reason = reason } ∷ []
upsert_closed mic on reason (row ∷ rows) =
    if fits mic on row
    then record row { is_open = false; reason = reason } ∷ rows
    else row ∷ upsert_closed mic on reason rows

module _ (lib : Library) where
  open lib use {
    strip_upper, local_date, is_trading_minute, in_bounds, is_session, session_open, session_close,
  }

  unfoldable pub normalize_exchange : String → Outcome String
  unfolding seed_to_mic
  normalize_exchange input =
      let upper = strip_upper input in
      if str_eq input ""
      then raised exchange_required
      else if is_supported upper
      then value upper
      else or_unsupported input (seed_to_mic upper)

  unfoldable pub is_market_open : List CalendarOverride → String → Datetime → Outcome Bool
  unfolding normalize_exchange ensure_utc override_for
  is_market_open rows exchange ts_utc = do
    mic ← normalize_exchange exchange
    ts ← ensure_utc ts_utc
    value (
        if forced_closed (override_for mic (local_date mic ts) rows)
        then false
        else or_closed (is_trading_minute mic ts))

  -- An open day. The half-day test is in seconds.
  unfoldable pub open_hours : List CalendarOverride → String → ℕ → SessionHours
  unfolding override_for typical_session_minutes
  open_hours rows mic on =
      let open_utc = session_open mic on in
      let close_utc = session_close mic on in
      record {
        exchange = mic;
        session_date = on;
        is_open = true;
        open_utc = some open_utc;
        close_utc = some close_utc;
        is_half_day = ltb (close_utc - open_utc) ((typical_session_minutes mic - 60) * 60);
        source = if forced_open (override_for mic on rows) then override else library;
      }

  -- The hours of a canonical exchange.
  unfoldable pub session_hours : List CalendarOverride → String → ℕ → SessionHours
  unfolding override_for closed_hours open_hours
  session_hours rows mic on =
      if forced_closed (override_for mic on rows)
      then closed_hours mic on override
      else if not (is_session mic on)
      then closed_hours mic on closed
      else open_hours rows mic on

  -- `cal.is_session` raises where the library does not know the date.
  abbrev pub answered : Bool → String → ℕ → SessionHours → Outcome SessionHours
  answered true mic on hours = value hours
  answered false mic on hours = raised (date_out_of_bounds mic on)

  unfoldable pub get_session_hours : List CalendarOverride → String → ℕ → Outcome SessionHours
  unfolding normalize_exchange session_hours
  get_session_hours rows exchange on = do
    mic ← normalize_exchange exchange
    answered (forced_closed (override_for mic on rows) || in_bounds mic on) mic on
        (session_hours rows mic on)

  -- The loop of `next_session_close` with the rounds that are left.
  unfoldable pub search_close : List CalendarOverride → String → ℕ → ℕ → ℕ → Outcome ℕ
  search_close rows mic ts zero candidate = raised (no_upcoming_close mic ts)
  search_close rows mic ts (suc rounds) candidate =
      let rest = search_close rows mic ts rounds (candidate + 1) in
      get_session_hours rows mic candidate >>= λ hours. or_next (close_from ts hours) rest

  unfoldable pub next_session_close : List CalendarOverride → String → Datetime → Outcome ℕ
  next_session_close rows exchange ts_utc = do
    mic ← normalize_exchange exchange
    ts ← ensure_utc ts_utc
    search_close rows mic ts 20 (local_date mic ts)

  unfoldable pub record_unexpected_closed :
      String → ℕ → String → List CalendarOverride → Outcome (List CalendarOverride)
  unfolding normalize_exchange upsert_closed
  record_unexpected_closed exchange on reason rows = do
    mic ← normalize_exchange exchange
    value (upsert_closed mic on reason rows)
