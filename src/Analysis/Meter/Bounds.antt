-- ===== src/Analysis/Meter/Bounds.antt =====
-- The range of the blended score, and the components that do not count in it
-- (backend/app/analysis/risk_meter.py and health_score.py).
use nivara.Prelude.{ℕ, Option, none, some, List, [], ◌∷◌, ◌≡◌, refl, Option-cases, inl, inr}
use nivara.Floats.{Floats, IsOrdered, IsRounding}
use nivara.Intelligence.Engines.{percent}
use nivara.Intelligence.Staleness.Levels.{hundred, zero-leb-hundred}
use nivara.Intelligence.Synthesizer.Bounds.{InRange, clamp_bounds}
use nivara.Analysis.Meter.{Component, blend, rounded, overall}
use nivara.Analysis.RiskMeter.{result_of, compute_risk_meter}
use nivara.Analysis.HealthScore.{Excess, compute_health_score}

module _ (f : Floats) where
  open f use {Num}

  -- The components that have a score.
  abbrev pub with_score : List (Component f) → List (Component f)
  with_score [] = []
  with_score (c ∷ components) = elim c.score [
    | none ↦ with_score components
    | some s ↦ c ∷ with_score components
  ]

module _ (f : Floats) where
  open f use {Num}

  step :
      (weighted weight_sum : Num) (c : Component f) (rest : List (Component f))
      → ((a b : Num) → blend f a b rest ≡ blend f a b (with_score f rest))
      → blend f weighted weight_sum (c ∷ rest)
        ≡ blend f weighted weight_sum (with_score f (c ∷ rest))
  unfolding blend
  step weighted weight_sum c rest ih = elim (Option-cases c.score) [
    | inl h ↦ rw (h, ih weighted weight_sum) refl
    | inr (s, h) ↦
        rw (h, ih (f.add weighted (f.mul s c.weight)) (f.add weight_sum c.weight), h) refl
  ]

  blend-with_score :
      (weighted weight_sum : Num) (components : List (Component f))
      → blend f weighted weight_sum components
        ≡ blend f weighted weight_sum (with_score f components)
  blend-with_score weighted weight_sum [] = refl
  blend-with_score weighted weight_sum (c ∷ rest) =
      step weighted weight_sum c rest (λ a b. blend-with_score a b rest)

  -- The overall score is that of the components with a score: the weight of a component without one is
  -- left out of the sum that the others are divided by.
  pub overall-with_score :
      (components : List (Component f)) → overall f components ≡ overall f (with_score f components)
  unfolding overall
  overall-with_score components = rw (blend-with_score f.zero f.zero components) refl

module _ (f : Floats) (o : IsOrdered f) (r : IsRounding f) where
  open f use {Num}

  rounded_bounds : (v : Num) → InRange f o f.zero (hundred f o) (rounded f v)
  unfolding rounded
  rounded_bounds v =
      let c =
        clamp_bounds f o v f.zero (percent f 10000) o.zero_finite (o.ratio_finite 10000 99)
          (zero-leb-hundred f o) in
      let low = r.round_mono f.zero _ c.0 in
      let high = r.round_mono _ (percent f 10000) c.1 in
      let zero = r.round_zero in let top = r.round_hundred in (cc, cc)

  -- The risk meter and the health score are between 0 and 100, whatever the weights, the scores of the
  -- holdings and the statistics of the series are, with NaN and infinite ones too.
  pub meters_bounds :
      (weights : List Num) (observations : ℕ) (pct_5 : Num) (series : Option (Num × Num))
      (upcoming_events : Option (List ℕ)) (today : ℕ) (fundamental technical : List (Option Num))
      (sqrt_days : Num) (excess : Option (Excess f))
      → let meter = compute_risk_meter f weights observations pct_5 series upcoming_events today in
        let health = compute_health_score f weights fundamental technical sqrt_days excess in
        InRange f o f.zero (hundred f o) meter.overall_score
        × InRange f o f.zero (hundred f o) health.overall_score
  unfolding compute_risk_meter compute_health_score result_of overall
  meters_bounds weights observations pct_5 series upcoming_events today fundamental technical
        sqrt_days excess =
      (rounded_bounds _, rounded_bounds _)
