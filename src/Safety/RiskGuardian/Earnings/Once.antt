-- ===== src/Safety/RiskGuardian/Earnings/Once.antt =====
-- One alert for a user and a symbol, however many accounts have a row for it
-- (backend/app/safety/risk_guardian.py).
use nivara.Prelude.{
  ℕ, ◌+◌, String, Bool, false, not, ◌&&◌, ◌||◌, Option, none, some, List, [], ◌∷◌, ◌++◌, ◌≡◌, refl,
  ap, map, ◌==◌, str_eq, eq_iff, is_some, if◌then◌else◌, arith,
}
use nivara.Safety.RiskGuardian.{
  Payload, volatility, earnings, macro, AlertEvent, pos, Position, Tables, Holding, holding_of,
}
use nivara.Safety.RiskGuardian.Earnings.{
  DateTexts, Keys, is_seen, due_date, check_earnings, earnings_loop, detect_earnings,
}

abbrev pub earnings_symbol : {F : Type 0} → Payload F → String → Bool
earnings_symbol (volatility s a b c) symbol = false
earnings_symbol (earnings s day days) symbol = str_eq s symbol
earnings_symbol (macro s a b c d) symbol = false

-- How many alerts on the earnings of the symbol the user gets.
abbrev pub alert_count : {F : Type 0} → ℕ → String → List (AlertEvent F) → ℕ
alert_count user_id symbol [] = 0
alert_count user_id symbol (a ∷ alerts) =
    (if (a.user_id == user_id) && earnings_symbol a.payload symbol then 1 else 0)
    + alert_count user_id symbol alerts

abbrev pub is_of : ℕ → String → Option Holding → Bool
is_of user_id symbol none = false
is_of user_id symbol (some h) = (h.user_id == user_id) && str_eq h.instrument.symbol symbol

-- Whether an account of the user has a position row for the symbol, of whatever quantity.
abbrev pub has_row : Tables → ℕ → String → List Position → Bool
has_row t user_id symbol [] = false
has_row t user_id symbol (position ∷ positions) =
    is_of user_id symbol (holding_of t position) || has_row t user_id symbol positions

-- What a sync makes of a position that the broker does not report any more.
abbrev pub closed : Position → Position
closed p = record p { quantity = pos 0 }

alert_count-append :
    {F : Type 0} (u : ℕ) (s : String) (xs ys : List (AlertEvent F))
    → alert_count u s (xs ++ ys) ≡ alert_count u s xs + alert_count u s ys
alert_count-append u s [] ys = omega arith
alert_count-append u s (x ∷ xs) ys = omega (arith, alert_count-append u s xs ys)

module _ (F : Type 0) (texts : DateTexts) (get_earnings_date : String → Option ℕ)
    (today days : ℕ) where
  check_earnings-count :
      (u : ℕ) (s : String) (seen : Keys) (o : Option Holding)
      → alert_count u s (check_earnings F texts get_earnings_date today days seen o).1 ≡ (
          if not (is_seen u s seen)
            && (is_some (due_date get_earnings_date today days s) && is_of u s o)
          then 1
          else 0)
  unfolding check_earnings
  check_earnings-count u s seen none = ground arith
  check_earnings-count u s seen (some h) = ground (arith, eq_iff h.instrument.symbol s)

  check_earnings-seen :
      (u : ℕ) (s : String) (seen : Keys) (o : Option Holding)
      → is_seen u s (check_earnings F texts get_earnings_date today days seen o).0
        ≡ (is_seen u s seen || is_some (due_date get_earnings_date today days s) && is_of u s o)
  unfolding check_earnings
  check_earnings-seen u s seen none = ground arith
  check_earnings-seen u s seen (some h) = ground (arith, eq_iff h.instrument.symbol s)

  earnings_loop-count :
      (t : Tables) (u : ℕ) (s : String) (seen : Keys) (positions : List Position)
      → alert_count u s (earnings_loop F texts get_earnings_date today days t seen positions) ≡ (
          if not (is_seen u s seen)
            && (is_some (due_date get_earnings_date today days s) && has_row t u s positions)
          then 1
          else 0)
  unfolding earnings_loop
  earnings_loop-count t u s seen [] = ground arith
  earnings_loop-count t u s seen (p ∷ positions) =
      let step = check_earnings F texts get_earnings_date today days seen (holding_of t p) in
      ground (
        arith,
        alert_count-append u s step.1
            (earnings_loop F texts get_earnings_date today days t step.0 positions),
        check_earnings-count u s seen (holding_of t p),
        check_earnings-seen u s seen (holding_of t p),
        earnings_loop-count t u s step.0 positions,
      )

  earnings_loop-closed :
      (t : Tables) (seen : Keys) (positions : List Position)
      → earnings_loop F texts get_earnings_date today days t seen (map closed positions)
        ≡ earnings_loop F texts get_earnings_date today days t seen positions
  unfolding earnings_loop holding_of
  earnings_loop-closed t seen [] = refl
  earnings_loop-closed t seen (p ∷ positions) =
      let step = check_earnings F texts get_earnings_date today days seen (holding_of t p) in
      ap (λ rest. step.1 ++ rest) (earnings_loop-closed t step.0 positions)

  -- A user gets exactly one earnings alert for a symbol that some account of theirs has a position row
  -- for and whose earnings date is known and lies between today and the horizon, however many
  -- accounts have one; and none for any other symbol. The quantities are not looked at: with every
  -- position closed, at quantity 0, the alerts are the same.
  pub detect_earnings-once :
      (t : Tables) (u : ℕ) (s : String) (positions : List Position)
      → alert_count u s (detect_earnings F texts get_earnings_date today days t positions) ≡ (
          if is_some (due_date get_earnings_date today days s) && has_row t u s positions
          then 1
          else 0)
        × (detect_earnings F texts get_earnings_date today days t (map closed positions)
            ≡ detect_earnings F texts get_earnings_date today days t positions)
  unfolding detect_earnings
  detect_earnings-once t u s positions =
      (earnings_loop-count t u s [] positions, earnings_loop-closed t [] positions)
