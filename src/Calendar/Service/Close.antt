-- ===== src/Calendar/Service/Close.antt =====
-- The days that `next_session_close` searches.
use nivara.Prelude.{
  ℕ, zero, suc, ◌+◌, ◌<◌, String, ◌≡◌, refl, Bool, false, not, ◌&&◌, str_eq, ◌==◌, leb,
  if◌then◌else◌, List, [], ◌∷◌, arith, ◌⊎◌, inl, inr,
}
use mathlib.Core.Path.{subst}
use nivara.Calendar.Library.{Library}
use nivara.Calendar.Service.{
  Outcome, value, raised, no_upcoming_close, date_out_of_bounds, aware, CalendarOverride,
  normalize_exchange, session_hours, get_session_hours, forced_closed, override_for, search_close,
  next_session_close, ensure_utc,
}
use nivara.Calendar.Service.Hours.{normalize_idem}

pub data Offer : Type 0 where
  closes : ℕ → Offer
  nothing unknown : Offer

module _ (lib : Library) (rows : List CalendarOverride) (mic : String) (ts : ℕ) where
  -- Whether the override row of a date closes it.
  abbrev pub vetoed : List CalendarOverride → ℕ → Bool
  vetoed [] date = false
  vetoed (row ∷ more) date =
      if str_eq row.exchange mic && row.date == date then not row.is_open else vetoed more date

  -- What a date offers: no override closes it, and the library has a session on it that closes at or
  -- after `ts`; or the library does not know the date.
  abbrev pub offers : ℕ → Offer
  offers date =
      if vetoed rows date
      then nothing
      else if not (lib.in_bounds mic date)
      then unknown
      else if lib.is_session mic date && leb ts (lib.session_close mic date)
      then closes (lib.session_close mic date)
      else nothing

  -- The first of the dates from `start` on that does not offer nothing offers this close, or is unknown;
  -- or all of them offer nothing.
  pub data IsFirst (start rounds : ℕ) : Outcome ℕ → Type 0 where
    found :
        (days c : ℕ)
        → days < rounds
        → offers (start + days) ≡ closes c
        → ((j : ℕ) → j < days → offers (start + j) ≡ nothing)
        → IsFirst start rounds (value c)
    outside :
        (days : ℕ)
        → days < rounds
        → offers (start + days) ≡ unknown
        → ((j : ℕ) → j < days → offers (start + j) ≡ nothing)
        → IsFirst start rounds (raised (date_out_of_bounds mic (start + days)))
    missing :
        ((j : ℕ) → j < rounds → offers (start + j) ≡ nothing)
        → IsFirst start rounds (raised (no_upcoming_close mic ts))

  -- One day that offers nothing, in front.
  offers_below :
      (start : ℕ) (n : ℕ)
      → offers start ≡ nothing
      → ((j : ℕ) → j < n → offers (start + 1 + j) ≡ nothing)
      → (j : ℕ) → j < suc n
      → offers (start + j) ≡ nothing
  offers_below start n e rest zero h = let p : start + 0 ≡ start = omega arith in rw p e
  offers_below start n e rest (suc j) h =
      let p : start + suc j ≡ start + 1 + j = omega arith in rw p (rest j (omega arith))

  IsFirst-next :
      {start rounds : ℕ} {o : Outcome ℕ}
      → offers start ≡ nothing
      → IsFirst (start + 1) rounds o
      → IsFirst start (suc rounds) o
  IsFirst-next {start} e (found days c h here below) =
      let p : start + suc days ≡ start + 1 + days = omega arith in
      found (suc days) c (omega arith) (rw p here) (offers_below start days e below)
  IsFirst-next {start} {rounds} e (outside days h here below) =
      let p : start + suc days ≡ start + 1 + days = omega arith in
      subst (λ k. IsFirst start (suc rounds) (raised (date_out_of_bounds mic k))) p
        (outside (suc days) (omega arith) (rw p here) (offers_below start days e below))
  IsFirst-next {start} {rounds} e (missing below) = missing (offers_below start rounds e below)

  search_end :
      (start : ℕ) → search_close lib rows mic ts zero start ≡ raised (no_upcoming_close mic ts)
  unfolding search_close
  search_end start = refl

  abbrev step : ℕ → Offer → Outcome ℕ → Outcome ℕ
  step date (closes c) rest = value c
  step date nothing rest = rest
  step date unknown rest = raised (date_out_of_bounds mic date)

  vetoed_lem :
      (more : List CalendarOverride) (date : ℕ)
      → forced_closed (override_for mic date more) ≡ vetoed more date
  unfolding override_for
  vetoed_lem [] date = refl
  vetoed_lem (row ∷ more) date = ground (arith, vetoed_lem more date)

  search_step :
      (rounds start : ℕ)
      → normalize_exchange lib mic ≡ value mic
      → search_close lib rows mic ts (suc rounds) start
        ≡ step start (offers start) (search_close lib rows mic ts rounds (start + 1))
  unfolding search_close get_session_hours session_hours
  search_step rounds start norm = rw norm (ground (arith, vetoed_lem rows start))

  Offer-cases : (o : Offer) → ((c : ℕ) × (o ≡ closes c)) ⊎ (o ≡ nothing) ⊎ (o ≡ unknown)
  Offer-cases (closes c) = inl (c, refl)
  Offer-cases nothing = inr (inl refl)
  Offer-cases unknown = inr (inr refl)

  search_close-IsFirst :
      (rounds start : ℕ)
      → normalize_exchange lib mic ≡ value mic
      → IsFirst start rounds (search_close lib rows mic ts rounds start)
  search_close-IsFirst zero start norm = rw (search_end start) (missing (λ j h. elim h [ ]))
  search_close-IsFirst (suc rounds) start norm =
      let p : start + 0 ≡ start = omega arith in
      elim (Offer-cases (offers start)) [
        | inl (c, e) ↦
            rw (search_step rounds start norm, e)
              (found 0 c (omega arith) (rw p e) (λ j h. elim h [ ]))
        | inr (inl e) ↦
            rw (search_step rounds start norm, e)
              (IsFirst-next e (search_close-IsFirst rounds (start + 1) norm))
        | inr (inr e) ↦
            rw (search_step rounds start norm, e)
              (subst (λ k. IsFirst start (suc rounds) (raised (date_out_of_bounds mic k))) p
                (outside 0 (omega arith) (rw p e) (λ j h. elim h [ ])))
      ]

-- `next_session_close` looks at the twenty days from the local date on. It returns the library's close
-- of the first of them that has a session, is not closed by an override and closes at or after the
-- time; it raises `DateOutOfBounds` where it meets a day before that the library does not know and no
-- override closes, and `RuntimeError` where there is no such day.
pub next_session_close-IsFirst :
    (lib : Library) (rows : List CalendarOverride) (input mic : String) (ts : ℕ)
    → normalize_exchange lib input ≡ value mic
    → IsFirst lib rows mic ts
        (lib.local_date mic ts)
        20
        (next_session_close lib rows input (aware ts))
unfolding next_session_close ensure_utc
next_session_close-IsFirst lib rows input mic ts norm = rw norm (
    search_close-IsFirst lib rows mic ts 20 (lib.local_date mic ts)
      (normalize_idem lib input mic norm).1)
