-- ===== src/Calendar/Service/Override.antt =====
-- What an automatic override does to later queries.
use nivara.Prelude.{
  ℕ, suc, ◌≤◌, String, ◌≡◌, Bool, false, ◌&&◌, some, List, [], ◌∷◌, arith, ◌==◌, str_eq, eq_iff,
  if◌then◌else◌,
}
use nivara.Calendar.Library.{Library}
use nivara.Calendar.Service.{
  value, aware, CalendarOverride, override, fits, override_for, normalize_exchange,
  get_session_hours, is_market_open, upsert_closed, record_unexpected_closed, closed_hours,
}

-- How many rows an exchange and a date have.
abbrev pub count : String → ℕ → List CalendarOverride → ℕ
count mic on [] = 0
count mic on (row ∷ rows) = if fits mic on row then suc (count mic on rows) else count mic on rows

-- The exchange and the date of the new or updated row.
abbrev pub same_day : String → ℕ → String → ℕ → Bool
same_day mic on mic' on' = str_eq mic mic' && on == on'

abbrev pub closing_row : String → ℕ → String → CalendarOverride
closing_row mic on reason = record { exchange = mic; date = on; is_open = false; reason = reason }

upsert_self :
    (mic : String) (on : ℕ) (reason : String) (rows : List CalendarOverride)
    → override_for mic on (upsert_closed mic on reason rows) ≡ some (closing_row mic on reason)
unfolding override_for upsert_closed
upsert_self mic on reason [] = ground (arith, eq_iff mic mic)
upsert_self mic on reason (row ∷ rows) =
    ground (arith, upsert_self mic on reason rows, eq_iff row.exchange mic)

upsert_if :
    (mic mic' : String) (on on' : ℕ) (reason : String) (rows : List CalendarOverride)
    → override_for mic' on' (upsert_closed mic on reason rows) ≡ (
        if same_day mic on mic' on'
        then some (closing_row mic on reason)
        else override_for mic' on' rows)
unfolding override_for upsert_closed
upsert_if mic mic' on on' reason [] = ground (arith, eq_iff mic mic')
upsert_if mic mic' on on' reason (row ∷ rows) = ground (
  arith,
  upsert_if mic mic' on on' reason rows,
  eq_iff row.exchange mic,
  eq_iff row.exchange mic',
  eq_iff mic mic',
)

upsert_count :
    (mic : String) (on : ℕ) (reason : String) (rows : List CalendarOverride)
    → count mic on rows ≤ 1
    → count mic on (upsert_closed mic on reason rows) ≡ 1
unfolding upsert_closed
upsert_count mic on reason [] h = ground (arith, eq_iff mic mic)
upsert_count mic on reason (row ∷ rows) h = ground (arith, upsert_count mic on reason rows)

module _ (lib : Library) where
  written :
      (input mic reason : String) (on : ℕ) (rows rows' : List CalendarOverride)
      → normalize_exchange lib input ≡ value mic
      → record_unexpected_closed lib input on reason rows ≡ value rows'
      → rows' ≡ upsert_closed mic on reason rows
  unfolding record_unexpected_closed
  written input mic reason on rows rows' norm done = ground (arith, norm, done)

  hours_closed :
      (input mic : String) (on : ℕ) (reason : String) (rows : List CalendarOverride)
      → normalize_exchange lib input ≡ value mic
      → override_for mic on rows ≡ some (closing_row mic on reason)
      → get_session_hours lib rows input on ≡ value (closed_hours mic on override)
  unfolding get_session_hours
  hours_closed input mic on reason rows norm row = rw (norm, row)

  market_closed :
      (input mic : String) (on ts : ℕ) (reason : String) (rows : List CalendarOverride)
      → normalize_exchange lib input ≡ value mic
      → lib.local_date mic ts ≡ on
      → override_for mic on rows ≡ some (closing_row mic on reason)
      → is_market_open lib rows input (aware ts) ≡ value false
  unfolding is_market_open
  market_closed input mic on ts reason rows norm date row = rw (norm, date, row)

  -- `record_unexpected_closed` leaves the day with one row, which closes the market: the session
  -- hours show it closed by an override, `is_market_open` is false at every time of that local date,
  -- and the row of every other exchange or date is as before.
  pub closed-record_unexpected_closed :
      (input mic mic' reason : String) (on on' ts : ℕ) (rows rows' : List CalendarOverride)
      → normalize_exchange lib input ≡ value mic
      → record_unexpected_closed lib input on reason rows ≡ value rows'
      → lib.local_date mic ts ≡ on
      → count mic on rows ≤ 1
      → (get_session_hours lib rows' input on ≡ value (closed_hours mic on override))
        × (is_market_open lib rows' input (aware ts) ≡ value false)
        × (override_for mic' on' rows' ≡ (
            if same_day mic on mic' on'
            then some (closing_row mic on reason)
            else override_for mic' on' rows))
        × (count mic on rows' ≡ 1)
  closed-record_unexpected_closed input mic mic' reason on on' ts rows rows' norm done date one =
      let own = upsert_self mic on reason rows in
      rw (written input mic reason on rows rows' norm done) (
        hours_closed input mic on _ _ norm own,
        market_closed input mic on ts _ _ norm date own,
        upsert_if mic mic' on on' reason rows,
        upsert_count mic on reason rows one,
      )
