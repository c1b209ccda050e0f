-- ===== src/Safety/RiskGuardian/Volatility.antt =====
-- `RiskGuardian.detect_volatility_alerts`. An instrument has at most one bar for a timestamp.
pub mod Window
use Prim.Native.String.{◌++◌ as append}
use nivara.Prelude.{
  ℕ, zero, suc, ◌+◌, String, Bool, true, false, Option, none, some, List, [], ◌∷◌, ◌++◌, ltb, ◌==◌,
  length, if◌then◌else◌,
}
use nivara.Floats.{Floats}
use nivara.Safety.RiskGuardian.{
  Payload, volatility, AlertEvent, Position, Tables, Holding, holding_of,
}

pub record Bar (D : Type 0) : Type 0 where
  pub instrument_id : ℕ
  pub timestamp : ℕ
  pub high : D
  pub low : D

module _ {D : Type 0} where
  abbrev pub bars_of : ℕ → List (Bar D) → List (Bar D)
  bars_of id [] = []
  bars_of id (bar ∷ bars) =
      if bar.instrument_id == id then bar ∷ bars_of id bars else bars_of id bars

  -- `order_by(desc(PriceHistory.timestamp))`
  abbrev pub insert_desc : Bar D → List (Bar D) → List (Bar D)
  insert_desc bar [] = bar ∷ []
  insert_desc bar (b ∷ bars) =
      if ltb b.timestamp bar.timestamp then bar ∷ b ∷ bars else b ∷ insert_desc bar bars

  abbrev pub sort_desc : List (Bar D) → List (Bar D)
  sort_desc [] = []
  sort_desc (bar ∷ bars) = insert_desc bar (sort_desc bars)

  abbrev pub take : ℕ → List (Bar D) → List (Bar D)
  take zero bars = []
  take (suc n) [] = []
  take (suc n) (bar ∷ bars) = bar ∷ take n bars

  unfoldable pub latest : ℕ → ℕ → List (Bar D) → List (Bar D)
  latest n id history = take n (sort_desc (bars_of id history))

module _ (f : Floats) where
  open f use {Num, Decimal}

  abbrev pub range_of : Bar Decimal → Num
  range_of bar = f.sub (f.of_decimal bar.high) (f.of_decimal bar.low)

  abbrev pub ranges : List (Bar Decimal) → List Num
  ranges [] = []
  ranges (bar ∷ bars) = range_of bar ∷ ranges bars

  abbrev pub volatility_alert : Num → Num → Num → Holding → AlertEvent Num
  volatility_alert multiplier today_range adr h = record {
    user_id = h.user_id;
    notification_type = "price_alert";
    title = append "Volatility alert: " h.instrument.symbol;
    body = append h.instrument.symbol (
        append " traded a " (
          append (f.fixed_2 today_range) (
            append " range today vs " (
              append (f.fixed_2 adr)
                (append " average (" (append (f.general multiplier) "× threshold)."))))));
    payload = volatility h.instrument.symbol today_range adr multiplier;
  }

  -- The newest bar against the mean range of the others.
  abbrev pub compare_range : Num → Holding → List (Bar Decimal) → List (AlertEvent Num)
  compare_range multiplier h [] = []
  compare_range multiplier h (today ∷ window) =
      let today_range = range_of today in
      let adr = f.mean (ranges window) in
      if f.leb adr f.zero
      then []
      else if f.ltb (f.mul multiplier adr) today_range
      then volatility_alert multiplier today_range adr h ∷ []
      else []

  unfoldable pub check_volatility :
      ℕ → Num → List (Bar Decimal) → Option Holding → List (AlertEvent Num)
  unfolding latest
  check_volatility lookback_days multiplier history none = []
  check_volatility lookback_days multiplier history (some h) =
      let rows = latest (lookback_days + 1) h.instrument.id history in
      if ltb (length rows) (lookback_days + 1) then [] else compare_range multiplier h rows

  unfoldable pub detect_volatility :
      ℕ → Num → Tables → List (Bar Decimal) → List Position → List (AlertEvent Num)
  unfolding check_volatility
  detect_volatility lookback_days multiplier t history [] = []
  detect_volatility lookback_days multiplier t history (position ∷ positions) =
      check_volatility lookback_days multiplier history (holding_of t position)
      ++ detect_volatility lookback_days multiplier t history positions
