-- ===== src/Analysis/HealthScore.antt =====
-- backend/app/analysis/health_score.py. The component of the risk-adjusted return takes the statistics of
-- the aligned excess returns: their number, mean and deviation, and the square root of the trading days.
use nivara.Prelude.{ℕ, Option, none, some, List, [], ◌∷◌, ltb, if◌then◌else◌}
use nivara.Floats.{Floats}
use nivara.Intelligence.Engines.{percent, clamp}
use nivara.Analysis.Meter.{Component, rounded, overall, scored}

module _ (f : Floats) where
  open f use {Num}

  abbrev pub diversification_score : Num → Num
  diversification_score hhi =
      if f.leb (percent f 100) hhi
      then f.zero
      else f.round_1 (
          f.mul
            (clamp f (f.div (f.sub (percent f 100) hhi) (f.sub (percent f 100) (percent f 5)))
              f.zero (percent f 100))
            (percent f 10000))

  -- `compute_diversification`
  unfoldable pub compute_diversification : List Num → Component f
  unfolding clamp
  compute_diversification weights = record {
    name = "diversification";
    score = scored f diversification_score weights;
    weight = percent f 25;
  }

  abbrev pub present : List (Option Num) → List Num
  present [] = []
  present (none ∷ scores) = present scores
  present (some s ∷ scores) = s ∷ present scores

  abbrev pub mean_score : (Num → Num) → List Num → Option Num
  mean_score score [] = none
  mean_score score (s ∷ scores) = some (score (f.mean (s ∷ scores)))

  -- `compute_fundamental`
  unfoldable pub compute_fundamental : List (Option Num) → Component f
  unfolding rounded
  compute_fundamental scores = record {
    name = "fundamental";
    score = mean_score (λ avg. rounded f avg) (present scores);
    weight = percent f 25;
  }

  -- The mean, clamped to -1 and 1, on the scale from 0 to 100.
  abbrev pub technical_score : Num → Num
  technical_score avg = f.round_1 (
      f.mul
        (f.div (f.add (clamp f avg (f.neg (percent f 100)) (percent f 100)) (percent f 100))
          (percent f 200))
        (percent f 10000))

  -- `compute_technical`
  unfoldable pub compute_technical : List (Option Num) → Component f
  unfolding clamp
  compute_technical scores = record {
    name = "technical";
    score = mean_score technical_score (present scores);
    weight = percent f 25;
  }

  pub record Excess : Type 0 where
    pub observations : ℕ
    pub mean : Num
    pub std : Num

  abbrev pub sharpe_score : Num → Num
  sharpe_score sharpe = f.round_1 (
      f.mul
        (f.div
          (f.sub (clamp f sharpe (f.neg (percent f 100)) (percent f 200)) (f.neg (percent f 100)))
          (f.sub (percent f 200) (f.neg (percent f 100))))
        (percent f 10000))

  abbrev pub risk_adjusted_score : Num → Option Excess → Option Num
  risk_adjusted_score sqrt_days none = none
  risk_adjusted_score sqrt_days (some e) =
      if ltb e.observations 30
      then none
      else if f.leb e.std f.zero
      then none
      else some (sharpe_score (f.mul (f.div e.mean e.std) sqrt_days))

  -- `compute_risk_adjusted`; none where a series is missing or empty.
  unfoldable pub compute_risk_adjusted : Num → Option Excess → Component f
  unfolding clamp
  compute_risk_adjusted sqrt_days excess = record {
    name = "risk_adjusted";
    score = risk_adjusted_score sqrt_days excess;
    weight = percent f 25;
  }

  pub record HealthScoreResult : Type 0 where
    pub overall_score : Num
    pub components : List (Component f)

  -- `compute_health_score`
  unfoldable pub compute_health_score :
      List Num → List (Option Num) → List (Option Num) → Num → Option Excess → HealthScoreResult
  unfolding overall
  compute_health_score holding_weights fundamental_scores technical_scores sqrt_days excess =
      let components =
        compute_diversification holding_weights
        ∷ compute_fundamental fundamental_scores
        ∷ compute_technical technical_scores
        ∷ compute_risk_adjusted sqrt_days excess
        ∷ [] in
      record { overall_score = overall f components; components = components }
