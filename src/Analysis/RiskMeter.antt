-- ===== src/Analysis/RiskMeter.antt =====
-- backend/app/analysis/risk_meter.py. The components of the volatility and the drawdown take the
-- statistics of their series: the number of returns with their fifth percentile, and the peak with the
-- current value.
use nivara.Prelude.{
  ℕ, ◌+◌, ◌-◌, Bool, ◌&&◌, Option, none, some, List, [], ◌∷◌, ltb, leb, if◌then◌else◌,
}
use nivara.Floats.{Floats}
use nivara.Intelligence.Engines.{percent, at_most, at_least}
use nivara.Analysis.Meter.{Component, rounded, overall, scored}

pub data Color : Type 0 where
  green yellow red : Color

abbrev pub events_window_days : ℕ
events_window_days = 5

abbrev pub min_returns_for_var : ℕ
min_returns_for_var = 30

module _ (f : Floats) where
  open f use {Num}

  -- `compute_concentration`
  unfoldable pub compute_concentration : List Num → Component f
  unfolding rounded
  compute_concentration weights = record {
    name = "concentration";
    score = scored f (λ hhi. rounded f (f.mul hhi (percent f 10000))) weights;
    weight = percent f 30;
  }

  -- `round(min(1.0, v) * 100.0, 1)`
  abbrev pub saturated : Num → Num
  saturated v = f.round_1 (f.mul (at_most f (percent f 100) v) (percent f 10000))

  -- `compute_volatility_var`, on the count and the percentile.
  unfoldable pub compute_volatility_var : ℕ → Num → Component f
  compute_volatility_var observations pct_5 = record {
    name = "volatility_var";
    score =
        if ltb observations min_returns_for_var
        then none
        else some (saturated (f.div (at_least f f.zero (f.neg pct_5)) (percent f 5)));
    weight = percent f 30;
  }

  -- `compute_drawdown`, on the peak and the current value; none where there is no series.
  abbrev pub drawdown_of : Num → Num → Num
  drawdown_of peak current =
      if f.leb peak f.zero then f.zero else at_least f f.zero (f.div (f.sub peak current) peak)

  abbrev pub drawdown_score : Option (Num × Num) → Option Num
  drawdown_score none = none
  drawdown_score (some (peak, current)) =
      some (saturated (f.div (drawdown_of peak current) (percent f 40)))

  unfoldable pub compute_drawdown : Option (Num × Num) → Component f
  compute_drawdown series = record {
    name = "drawdown";
    score = drawdown_score series;
    weight = percent f 20;
  }

  -- `0 <= (ev - today).days <= _EVENTS_WINDOW_DAYS`
  abbrev pub in_window : ℕ → ℕ → Bool
  in_window today day = leb today day && leb day (today + events_window_days)

  unfoldable pub sum_events : ℕ → Num → List ℕ → Num
  sum_events today raw [] = raw
  sum_events today raw (day ∷ days) =
      sum_events today
        (if in_window today day
          then f.add raw
              (f.div (f.of_nat (events_window_days - (day - today))) (f.of_nat events_window_days))
          else raw)
        days

  abbrev pub events_score : ℕ → Option (List ℕ) → Num
  events_score today none = f.zero
  events_score today (some days) = saturated (sum_events today f.zero days)

  -- `compute_events`; a date is the number of its day.
  unfoldable pub compute_events : ℕ → Option (List ℕ) → Component f
  unfolding sum_events
  compute_events today upcoming_events = record {
    name = "events";
    score = some (events_score today upcoming_events);
    weight = percent f 20;
  }

  -- `_classify`
  unfoldable pub classify : Num → Color
  classify score =
      if f.leb score (percent f 3000)
      then green
      else if f.leb score (percent f 6000)
      then yellow
      else red

  pub record RiskMeterResult : Type 0 where
    pub overall_score : Num
    pub color : Color
    pub components : List (Component f)

  unfoldable pub result_of : List (Component f) → RiskMeterResult
  unfolding overall classify
  result_of components = record {
    overall_score = overall f components;
    color = classify (overall f components);
    components = components;
  }

  -- `compute_risk_meter`
  unfoldable pub compute_risk_meter :
      List Num → ℕ → Num → Option (Num × Num) → Option (List ℕ) → ℕ → RiskMeterResult
  unfolding result_of
  compute_risk_meter holding_weights observations pct_5 series upcoming_events today = result_of (
      compute_concentration holding_weights
      ∷ compute_volatility_var observations pct_5
      ∷ compute_drawdown series
      ∷ compute_events today upcoming_events
      ∷ [])
