-- ===== src/Calendar/Verify/Drifts.antt =====
-- Which days a verification reports, and that it ends
-- (backend/app/tasks/calendar_verify.py).
use nivara.Prelude.{
  ℕ, zero, suc, ◌+◌, ◌*◌, ◌≤◌, ◌<◌, String, Bool, false, not, ◌&&◌, Option, none, some, List, [],
  ◌∷◌, ◌++◌, ◌≡◌, refl, leb, ◌==◌, str_eq, eq_iff, if◌then◌else◌, arith, Bool-cases, inl, inr,
}
use nivara.Calendar.Library.{Library}
use nivara.Calendar.Service.{CalendarOverride}
use nivara.Calendar.Verify.{
  Drift, DriftReport, horizon_rows, or_else, override_on, same, drift_of, walk_days,
  verify_exchanges, verify_calendars,
}

-- How many of the drifts are on the day, and of the exchange.
abbrev pub drift_count : String → ℕ → List Drift → ℕ
drift_count mic on [] = 0
drift_count mic on (d ∷ drifts) =
    (if str_eq d.exchange mic && d.on == on then 1 else 0) + drift_count mic on drifts

abbrev pub mentions : String → List String → ℕ
mentions mic [] = 0
mentions mic (m ∷ exchanges) = (if str_eq m mic then 1 else 0) + mentions mic exchanges

-- The last row of all the table for the exchange and the day.
abbrev pub last_override : String → ℕ → List CalendarOverride → Option CalendarOverride
last_override mic on [] = none
last_override mic on (row ∷ rows) =
    or_else (last_override mic on rows)
      (if str_eq row.exchange mic && row.date == on then some row else none)

abbrev pub disagrees : Bool → Option CalendarOverride → Bool
disagrees library none = false
disagrees library (some row) = not (same library row.is_open)

drift_count-append :
    (mic : String) (on : ℕ) (xs ys : List Drift)
    → drift_count mic on (xs ++ ys) ≡ drift_count mic on xs + drift_count mic on ys
drift_count-append mic on [] ys = omega arith
drift_count-append mic on (x ∷ xs) ys = omega (arith, drift_count-append mic on xs ys)

override_on-horizon_rows :
    (mic : String) (today horizon_end d : ℕ) (rows : List CalendarOverride)
    → today ≤ d
    → d ≤ horizon_end
    → override_on d (horizon_rows mic today horizon_end rows) ≡ last_override mic d rows
override_on-horizon_rows mic today horizon_end d [] p q = refl
override_on-horizon_rows mic today horizon_end d (row ∷ rows) p q =
    ground (arith, override_on-horizon_rows mic today horizon_end d rows)

drift_of-count :
    (mic m : String) (on d : ℕ) (library : Bool) (o : Option CalendarOverride)
    → drift_count mic on (drift_of m d library o)
      ≡ (if str_eq m mic && d == on then (if disagrees library o then 1 else 0) else 0)
drift_of-count mic m on d library none = ground arith
drift_of-count mic m on d library (some row) = ground arith

module _ (lib : Library) where
  walk_days-count :
      (fuel : ℕ) (mic m : String) (on d horizon_end : ℕ) (overrides : List CalendarOverride)
      → horizon_end + 1 < fuel + d
      → d ≤ horizon_end + 1
      → (drifts : List Drift) × (walk_days lib fuel m d horizon_end overrides ≡ some drifts)
        × (drift_count mic on drifts ≡ (
            if str_eq m mic && (leb d on && leb on horizon_end)
            then (if disagrees (lib.is_session m on) (override_on on overrides) then 1 else 0)
            else 0))
  unfolding walk_days
  walk_days-count zero mic m on d horizon_end overrides h b = absurd (omega arith)
  walk_days-count (suc fuel) mic m on d horizon_end overrides h b =
      elim (Bool-cases (leb d horizon_end)) [
        | inr e ↦ ([], ground arith, ground arith)
        | inl e ↦
            let drifts = drift_of m d (lib.is_session m d) (override_on d overrides) in
            let (rest, found, counted) =
              walk_days-count fuel mic m on (d + 1) horizon_end overrides (omega arith)
                (ground arith) in
            (
              drifts ++ rest,
              ground arith,
              ground (
                arith,
                drift_count-append mic on drifts rest,
                drift_of-count mic m on d (lib.is_session m d) (override_on d overrides),
              ),
            )
      ]

  -- Whether a run that starts today and looks `horizon_days` ahead should report the day.
  abbrev pub should_report : String → ℕ → ℕ → ℕ → List CalendarOverride → Bool
  should_report mic on today horizon_days rows =
      leb today on
      && (leb on (today + horizon_days)
          && disagrees (lib.is_session mic on) (last_override mic on rows))

  verify_exchanges-count :
      (fuel : ℕ) (mic : String) (on today horizon_days : ℕ) (exchanges : List String)
      (rows : List CalendarOverride)
      → horizon_days + 1 < fuel
      → (drifts : List Drift) × (verify_exchanges lib fuel exchanges today
            (today + horizon_days)
            rows
          ≡ some drifts)
        × (drift_count mic on drifts
            ≡ mentions mic exchanges
              * (if should_report mic on today horizon_days rows then 1 else 0))
  unfolding verify_exchanges
  verify_exchanges-count fuel mic on today horizon_days [] rows h = ([], refl, omega arith)
  verify_exchanges-count fuel mic on today horizon_days (m ∷ exchanges) rows h =
      let overrides = horizon_rows m today (today + horizon_days) rows in
      let (first, found, counted) =
        walk_days-count fuel mic m on today (today + horizon_days) overrides (omega arith)
          (omega arith) in
      let (rest, found', counted') =
        verify_exchanges-count fuel mic on today horizon_days exchanges rows h in
      (
        first ++ rest,
        ground arith,
        ground (
          arith,
          drift_count-append mic on first rest,
          eq_iff m mic,
          override_on-horizon_rows m today (today + horizon_days) on rows,
        ),
      )

  -- With two rounds of fuel more than the days ahead, a verification ends. It reports a day once for
  -- each mention of the exchange if the day lies between today and the horizon, both included, and
  -- the last override row for it contradicts the library; it reports no other day.
  pub verify_calendars-drifts :
      (fuel : ℕ) (mic : String) (on today horizon_days now : ℕ) (exchanges : List String)
      (rows : List CalendarOverride)
      → horizon_days + 1 < fuel
      → (report : DriftReport) × (verify_calendars lib fuel exchanges horizon_days today now rows
          ≡ some report)
        × (drift_count mic on report.drifts
            ≡ mentions mic exchanges
              * (if should_report mic on today horizon_days rows then 1 else 0))
  unfolding verify_calendars
  verify_calendars-drifts fuel mic on today horizon_days now exchanges rows h =
      let (drifts, found, counted) =
        verify_exchanges-count fuel mic on today horizon_days exchanges rows h in
      (
        record {
          run_at = now;
          exchanges_checked = exchanges;
          horizon_days = horizon_days;
          drifts = drifts;
        },
        ground arith,
        counted,
      )
