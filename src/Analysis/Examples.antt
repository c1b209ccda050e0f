-- ===== src/Analysis/Examples.antt =====
-- The meters on a small book (backend/app/analysis/risk_meter.py and health_score.py).
use nivara.Prelude.{ℕ, Option, none, some, List, [], ◌∷◌, ◌≡◌, refl}
use nivara.Floats.{hundredth_floats, hundredth_floats-IsOrdered, hundredth_floats-IsRounding}
use nivara.Intelligence.Staleness.Levels.{hundred}
use nivara.Intelligence.Synthesizer.Bounds.{InRange}
use nivara.Analysis.Meter.{Component, overall}
use nivara.Analysis.Meter.Bounds.{with_score, overall-with_score, meters_bounds}
use nivara.Analysis.RiskMeter.{
  yellow, compute_concentration, compute_volatility_var, compute_drawdown, compute_events,
  compute_risk_meter,
}
use nivara.Analysis.HealthScore.{Excess, compute_health_score}

-- Two holdings of equal value, in hundredths.
abbrev equal_weights : List ℕ
equal_weights = 5000 ∷ 5000 ∷ []

abbrev fall : Option (ℕ × ℕ)
fall = some (100, 90)

abbrev earnings : Option (List ℕ)
earnings = some (10 ∷ 12 ∷ 99 ∷ [])

abbrev steady : Option (Excess hundredth_floats)
steady = some (record { observations = 40; mean = 5; std = 10 })

abbrev parts : List (Component hundredth_floats)
parts =
    record { name = "concentration"; score = some 5000; weight = 30 }
    ∷ record { name = "volatility_var"; score = none; weight = 30 }
    ∷ record { name = "events"; score = some 1000; weight = 20 }
    ∷ []

meters_bounds_example :
    let meter = compute_risk_meter hundredth_floats equal_weights 40 0 fall earnings 10 in
    let health =
      compute_health_score hundredth_floats equal_weights
        (some 6000 ∷ none ∷ [])
        (some 50 ∷ [])
        1587
        steady in
    InRange hundredth_floats hundredth_floats-IsOrdered 0
      (hundred hundredth_floats hundredth_floats-IsOrdered)
      meter.overall_score
    × InRange hundredth_floats hundredth_floats-IsOrdered 0
        (hundred hundredth_floats hundredth_floats-IsOrdered)
        health.overall_score
meters_bounds_example =
    meters_bounds hundredth_floats hundredth_floats-IsOrdered hundredth_floats-IsRounding
      equal_weights 40 0 fall earnings 10 (some 6000 ∷ none ∷ []) (some 50 ∷ []) 1587 steady

overall-with_score_example :
    overall hundredth_floats parts ≡ overall hundredth_floats (with_score hundredth_floats parts)
overall-with_score_example = overall-with_score hundredth_floats parts

half_concentrated : (compute_concentration hundredth_floats equal_weights).score ≡ some 5000
unfolding compute_concentration
half_concentrated = refl

-- The event of day 99 is outside the window: 100 and 60 of a hundred saturate.
meter_of_book :
    let meter = compute_risk_meter hundredth_floats equal_weights 40 0 fall earnings 10 in
    (meter.overall_score ≡ 4000) × (meter.color ≡ yellow)
unfolding compute_risk_meter compute_concentration compute_volatility_var compute_drawdown
    compute_events
meter_of_book = (refl, refl)
