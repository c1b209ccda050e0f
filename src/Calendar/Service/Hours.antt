-- ===== src/Calendar/Service/Hours.antt =====
-- Exchange codes, session hours, and whether a market is open.
use nivara.Prelude.{
  ℕ, ◌<◌, String, ◌≡◌, ◌⊎◌, refl, Bool, true, false, not, ◌&&◌, Option, none, some, List, str_eq,
  Bool-cases, arith, ltb, leb, eq_iff, inl, inr, if◌then◌else◌,
}
use mathlib.Core.Path.{subst}
use nivara.Calendar.Library.{Library}
use nivara.Calendar.Service.{
  Outcome, value, raised, seed_to_mic, or_unsupported, aware, CalendarOverride, SessionHours,
  Source, override, closed, closed_hours, override_for, forced_closed, is_supported, ◌>>=◌,
  normalize_exchange, is_market_open, session_hours, open_hours, get_session_hours,
}

-- Between the opening and the close.
abbrev pub within_hours : SessionHours → ℕ → Bool
within_hours h ts = elim h.open_utc [
  | none ↦ false
  | some o ↦ elim h.close_utc [ none ↦ false | some c ↦ h.is_open && (leb o ts && ltb ts c) ]
]

-- What `get_session_hours` answers: an open day, whose opening is before its close, or a day
-- without hours, which is no half day.
pub data IsHours : SessionHours → Type 0 where
  open_day :
      (mic : String) (on o c : ℕ) (half : Bool) (source : Source)
      → o < c
      → IsHours (record {
        exchange = mic;
        session_date = on;
        is_open = true;
        open_utc = some o;
        close_utc = some c;
        is_half_day = half;
        source = source;
      })
  closed_day : (mic : String) (on : ℕ) (source : Source) → IsHours (closed_hours mic on source)

IsHours-if :
    (b : Bool) (x y : SessionHours)
    → (b ≡ true → IsHours x)
    → (b ≡ false → IsHours y)
    → IsHours (if b then x else y)
IsHours-if true x y h k = h refl
IsHours-if false x y h k = k refl

-- A code that is answered is a supported one.
abbrev Supports : Outcome String → Type 0
Supports (value mic) = is_supported mic ≡ true
Supports (raised e) = Unit

abbrev MaySupport : Option String → Type 0
MaySupport none = Unit
MaySupport (some mic) = is_supported mic ≡ true

Supports-if :
    (b : Bool) (x y : Outcome String) → Supports x → Supports y → Supports (if b then x else y)
Supports-if true x y p q = p
Supports-if false x y p q = q

MaySupport-if :
    (b : Bool) (x y : Option String) → MaySupport x → MaySupport y → MaySupport (if b then x else y)
MaySupport-if true x y p q = p
MaySupport-if false x y p q = q

supported_or :
    (mic : String) (rest : Outcome String)
    → Supports rest
    → Supports (if is_supported mic then value mic else rest)
supported_or mic rest h = elim (Bool-cases (is_supported mic)) [
  | inl known ↦ rw known known
  | inr unknown ↦ rw unknown h
]

seed_to_mic-MaySupport : (code : String) → MaySupport (seed_to_mic code)
unfolding seed_to_mic
seed_to_mic-MaySupport code = MaySupport-if (str_eq code "NYSE") _ _ refl (
    MaySupport-if (str_eq code "NASDAQ") _ _ refl (
      MaySupport-if (str_eq code "ARCX") _ _ refl (
        MaySupport-if (str_eq code "BATS") _ _ refl (
          MaySupport-if (str_eq code "BSE") _ _ refl
            (MaySupport-if (str_eq code "NSE") _ _ refl tt)))))

or_unsupported-Supports :
    (input : String) (o : Option String) → MaySupport o → Supports (or_unsupported input o)
or_unsupported-Supports input none h = tt
or_unsupported-Supports input (some mic) h = h

module _ (lib : Library) where
  open lib use {strip_upper, local_date, is_trading_minute, is_session, session_open, session_close}

  supported_cases :
      (mic : String) → is_supported mic ≡ true → (mic ≡ "XNYS") ⊎ (mic ≡ "XNAS") ⊎ (mic ≡ "XBOM")
  supported_cases mic h = ground (arith, eq_iff mic "XNYS", eq_iff mic "XNAS", eq_iff mic "XBOM")

  normalize_fixed :
      (mic : String)
      → (mic ≡ "XNYS") ⊎ (mic ≡ "XNAS") ⊎ (mic ≡ "XBOM")
      → normalize_exchange lib mic ≡ value mic
  unfolding normalize_exchange
  normalize_fixed mic (inl p) = rw (p, lib.strip_upper_mic.0)
  normalize_fixed mic (inr (inl p)) = rw (p, lib.strip_upper_mic.1)
  normalize_fixed mic (inr (inr p)) = rw (p, lib.strip_upper_mic.2)

  normalize-Supports : (input : String) → Supports (normalize_exchange lib input)
  unfolding normalize_exchange
  normalize-Supports input = Supports-if (str_eq input "") _ _ tt (
      supported_or (strip_upper input) _
        (or_unsupported-Supports input _ (seed_to_mic-MaySupport (strip_upper input))))

  normalize_supported :
      (input mic : String) → normalize_exchange lib input ≡ value mic → is_supported mic ≡ true
  normalize_supported input mic h = subst Supports h (normalize-Supports input)

  -- A code that `normalize_exchange` returns is one of the three supported ones, and is returned
  -- unchanged when it is normalised again.
  pub normalize_idem :
      (input mic : String)
      → normalize_exchange lib input ≡ value mic
      → (is_supported mic ≡ true) × (normalize_exchange lib mic ≡ value mic)
  normalize_idem input mic h =
      let known = normalize_supported input mic h in
      (known, normalize_fixed mic (supported_cases mic known))

  -- Whatever the override rows say, the hours of a day are those of an open day, whose opening is
  -- before its close, or of a day without hours, which is no half day.
  pub session_hours-IsHours :
      (rows : List CalendarOverride) (mic : String) (on : ℕ)
      → IsHours (session_hours lib rows mic on)
  unfolding session_hours
  session_hours-IsHours rows mic on =
      let row = override_for mic on rows in
      let hours = open_hours lib rows mic on in
      IsHours-if (forced_closed row) (closed_hours mic on override)
        (if not (is_session mic on) then closed_hours mic on closed else hours)
        (λ _. closed_day mic on override)
        (λ _.
          IsHours-if (not (is_session mic on)) (closed_hours mic on closed) hours
            (λ _. closed_day mic on closed)
            (λ e.
              open_day mic on _ _ hours.is_half_day hours.source
                (lib.open-lt-close mic on (ground arith))))

  -- A day is open exactly when the library has a session on it and no override closes it.
  pub session_hours_open :
      (rows : List CalendarOverride) (mic : String) (on : ℕ)
      → (session_hours lib rows mic on).is_open
        ≡ (is_session mic on && not (forced_closed (override_for mic on rows)))
  unfolding session_hours
  session_hours_open rows mic on = ground arith

  -- Where the library knows the minute, `is_market_open` says that the time lies within the hours that
  -- `get_session_hours` gives for its local date.
  pub is_market_open-get_session_hours :
      (rows : List CalendarOverride) (input mic : String) (ts : ℕ) (known : Bool)
      → normalize_exchange lib input ≡ value mic
      → is_trading_minute mic ts ≡ some known
      → is_market_open lib rows input (aware ts)
        ≡ (do h ← get_session_hours lib rows input (local_date mic ts); value (within_hours h ts))
  unfolding is_market_open get_session_hours session_hours
  is_market_open-get_session_hours rows input mic ts known norm minute = rw norm (
      ground (
        arith,
        minute,
        lib.trading_minute mic ts known minute,
        lib.known_in_bounds mic ts known minute,
      ))
