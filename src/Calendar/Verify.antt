-- ===== src/Calendar/Verify.antt =====
-- `verify_calendars` of backend/app/tasks/calendar_verify.py: the calendar library against the
-- override rows, day by day. The loop over the days runs on fuel. A missing reason is the empty text.
-- The days are those that the library knows; on another one `cal.is_session` raises and there is no
-- report.
pub mod Drifts
use nivara.Prelude.{
  ℕ, zero, suc, ◌+◌, String, Bool, true, false, not, ◌&&◌, Option, none, some, List, [], ◌∷◌, ◌++◌,
  leb, ◌==◌, str_eq, if◌then◌else◌,
}
use nivara.Calendar.Library.{Library}
use nivara.Calendar.Service.{CalendarOverride}

pub record Drift : Type 0 where
  pub exchange : String
  pub on : ℕ
  pub library_says_open : Bool
  pub override_says_open : Bool
  pub reason : String

pub record DriftReport : Type 0 where
  pub run_at : ℕ
  pub exchanges_checked : List String
  pub horizon_days : ℕ
  pub drifts : List Drift

-- `DriftReport.has_drift`
abbrev pub has_drift : DriftReport → Bool
has_drift report = elim report.drifts [ [] ↦ false | _ ∷ _ ↦ true ]

abbrev pub in_horizon : String → ℕ → ℕ → CalendarOverride → Bool
in_horizon mic today horizon_end row =
    str_eq row.exchange mic && (leb today row.date && leb row.date horizon_end)

abbrev pub horizon_rows : String → ℕ → ℕ → List CalendarOverride → List CalendarOverride
horizon_rows mic today horizon_end [] = []
horizon_rows mic today horizon_end (row ∷ rows) =
    if in_horizon mic today horizon_end row
    then row ∷ horizon_rows mic today horizon_end rows
    else horizon_rows mic today horizon_end rows

-- `overrides[d]` of `{row.date: row for row in ...}`: the last row of the day.
abbrev pub or_else : Option CalendarOverride → Option CalendarOverride → Option CalendarOverride
or_else none other = other
or_else (some row) other = some row

abbrev pub override_on : ℕ → List CalendarOverride → Option CalendarOverride
override_on d [] = none
override_on d (row ∷ rows) = or_else (override_on d rows) (if row.date == d then some row else none)

abbrev pub same : Bool → Bool → Bool
same true b = b
same false b = not b

abbrev pub reason_text : String → String
reason_text reason = if str_eq reason "" then "(no reason recorded)" else reason

-- The drift of one day, or none.
abbrev pub drift_of : String → ℕ → Bool → Option CalendarOverride → List Drift
drift_of mic d library_says_open none = []
drift_of mic d library_says_open (some row) =
    if same library_says_open row.is_open
    then []
    else record {
      exchange = mic;
      on = d;
      library_says_open = library_says_open;
      override_says_open = row.is_open;
      reason = reason_text row.reason;
    }
      ∷ []

abbrev pub append : List Drift → Option (List Drift) → Option (List Drift)
append drifts none = none
append drifts (some rest) = some (drifts ++ rest)

abbrev pub default_horizon_days : ℕ
default_horizon_days = 14

abbrev pub default_exchanges : List String
default_exchanges = "XNYS" ∷ "XNAS" ∷ "XBOM" ∷ []

module _ (lib : Library) where
  -- `while d <= horizon_end`; `none` where the fuel runs out.
  unfoldable pub walk_days : ℕ → String → ℕ → ℕ → List CalendarOverride → Option (List Drift)
  walk_days zero mic d horizon_end overrides = none
  walk_days (suc fuel) mic d horizon_end overrides =
      let rest =
        append (drift_of mic d (lib.is_session mic d) (override_on d overrides))
          (walk_days fuel mic (d + 1) horizon_end overrides) in
      if leb d horizon_end then rest else some []

  unfoldable pub verify_exchanges :
      ℕ → List String → ℕ → ℕ → List CalendarOverride → Option (List Drift)
  unfolding walk_days
  verify_exchanges fuel [] today horizon_end rows = some []
  verify_exchanges fuel (mic ∷ exchanges) today horizon_end rows =
      elim (walk_days fuel mic today horizon_end (horizon_rows mic today horizon_end rows)) [
        | none ↦ none
        | some drifts ↦ append drifts (verify_exchanges fuel exchanges today horizon_end rows)
      ]

  unfoldable pub verify_calendars :
      ℕ → List String → ℕ → ℕ → ℕ → List CalendarOverride → Option DriftReport
  unfolding verify_exchanges
  verify_calendars fuel exchanges horizon_days today now rows =
      elim (verify_exchanges fuel exchanges today (today + horizon_days) rows) [
        | none ↦ none
        | some drifts ↦ some (record {
          run_at = now;
          exchanges_checked = exchanges;
          horizon_days = horizon_days;
          drifts = drifts;
        })
      ]
