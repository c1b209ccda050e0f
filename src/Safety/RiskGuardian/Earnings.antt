-- ===== src/Safety/RiskGuardian/Earnings.antt =====
-- `RiskGuardian.detect_earnings_alerts`. A date is the number of its day.
pub mod Once
use Prim.Native.String.{◌++◌ as append}
use nivara.Prelude.{
  ℕ, ◌+◌, ◌-◌, String, Bool, true, false, ◌&&◌, ◌||◌, Option, none, some, List, [], ◌∷◌, ◌++◌, leb,
  ◌==◌, str_eq, if◌then◌else◌,
}
use nivara.Safety.RiskGuardian.{
  Payload, earnings, AlertEvent, Position, Tables, Holding, holding_of,
}

-- `{n}` and `date.isoformat()`
pub record DateTexts : Type 0 where
  pub number : ℕ → String
  pub isoformat : ℕ → String

abbrev pub Keys : Type 0
Keys = List (ℕ × String)

abbrev pub is_seen : ℕ → String → Keys → Bool
is_seen user_id symbol [] = false
is_seen user_id symbol ((u, s) ∷ keys) =
    (u == user_id) && str_eq s symbol || is_seen user_id symbol keys

abbrev pub in_horizon : ℕ → ℕ → ℕ → Bool
in_horizon today days_ahead day = leb today day && leb day (today + days_ahead)

-- The date of a holding's alert; `none` where the holding has none.
abbrev pub due_date : (String → Option ℕ) → ℕ → ℕ → String → Option ℕ
due_date get_earnings_date today days_ahead symbol = elim (get_earnings_date symbol) [
  | none ↦ none
  | some day ↦ if in_horizon today days_ahead day then some day else none
]

module _ (F : Type 0) (texts : DateTexts) where
  abbrev pub earnings_alert : ℕ → ℕ → Holding → AlertEvent F
  earnings_alert today earnings_date h =
      let days_until = earnings_date - today in
      record {
        user_id = h.user_id;
        notification_type = "system";
        title =
            append "Earnings in "
              (append (texts.number days_until) (append " days: " h.instrument.symbol));
        body = append h.instrument.symbol (
            append " reports earnings on " (
              append (texts.isoformat earnings_date)
                (append " (" (append (texts.number days_until) " days away)."))));
        payload = earnings h.instrument.symbol earnings_date days_until;
      }

  abbrev pub alert_once : ℕ → Holding → Keys → Option ℕ → Bool → Keys × List (AlertEvent F)
  alert_once today h seen none known = (seen, [])
  alert_once today h seen (some day) true = (seen, [])
  alert_once today h seen (some day) false =
      ((h.user_id, h.instrument.symbol) ∷ seen, earnings_alert today day h ∷ [])

  -- One round of the loop: the keys that are seen after it, and its alert.
  unfoldable pub check_earnings :
      (String → Option ℕ) → ℕ → ℕ → Keys → Option Holding → Keys × List (AlertEvent F)
  check_earnings get_earnings_date today days_ahead seen none = (seen, [])
  check_earnings get_earnings_date today days_ahead seen (some h) =
      alert_once today h seen (due_date get_earnings_date today days_ahead h.instrument.symbol)
        (is_seen h.user_id h.instrument.symbol seen)

  unfoldable pub earnings_loop :
      (String → Option ℕ) → ℕ → ℕ → Tables → Keys → List Position → List (AlertEvent F)
  unfolding check_earnings
  earnings_loop get_earnings_date today days_ahead t seen [] = []
  earnings_loop get_earnings_date today days_ahead t seen (position ∷ positions) =
      let (seen', alerts) =
        check_earnings get_earnings_date today days_ahead seen (holding_of t position) in
      alerts ++ earnings_loop get_earnings_date today days_ahead t seen' positions

  unfoldable pub detect_earnings :
      (String → Option ℕ) → ℕ → ℕ → Tables → List Position → List (AlertEvent F)
  unfolding earnings_loop
  detect_earnings get_earnings_date today days_ahead t positions =
      earnings_loop get_earnings_date today days_ahead t [] positions
