-- ===== src/Intelligence/Synthesizer/Bounds.antt =====
-- The range of what a synthesis returns (backend/app/intelligence/synthesizer.py).
use nivara.Prelude.{
  Bool, true, false, Option, none, some, [], ◌∷◌, ◌≡◌, refl, arith, Bool-cases, inl, inr,
}
use nivara.Floats.{Floats, IsOrdered}
use nivara.Intelligence.Staleness.{StalenessLevel, is_suppressed, classify_staleness}
use nivara.Intelligence.Staleness.Levels.{hundred, zero-leb-hundred, reduction_bounds}
use nivara.Intelligence.Explainers.{Engine, technical, fundamental, sentiment, risk}
use nivara.Intelligence.Engines.{
  percent, at_most, clamp, clamp_one, Normalized, normalize_engines, weight_of, total_weight, Blend,
  blend_ai,
}
use nivara.Intelligence.Synthesizer.{
  Status, ok, stale, RecommendationResponse, Request, composite_of, confidence_of, recommend,
  refused, gated, from_engines, time_or, oldest_time, synthesize,
}

module _ (f : Floats) (o : IsOrdered f) where
  open f use {Num}

  abbrev pub InRange : Num → Num → Num → Type 0
  InRange lo hi v = (f.leb lo v ≡ true) × (f.leb v hi ≡ true)

  pub clamp_bounds :
      (v lo hi : Num)
      → f.finite lo ≡ true
      → f.finite hi ≡ true
      → f.leb lo hi ≡ true
      → InRange lo hi (clamp f v lo hi)
  unfolding clamp
  clamp_bounds v lo hi hl hh h = ground (
    arith,
    o.leb_of_ltb v hi,
    o.leb_refl hi hh,
    o.leb_refl lo hl,
    o.leb_of_ltb lo (at_most f hi v),
  )

  abbrev pub one : Num
  one = percent f 100

  clamp_one_bounds : (v : Num) → InRange (f.neg one) one (clamp_one f v)
  clamp_one_bounds v =
      clamp_bounds v (f.neg one) one (o.neg_finite one (o.ratio_finite 100 99))
        (o.ratio_finite 100 99) (o.neg_percent 100)

  composite_bounds :
      (total : Num) (b : Blend f) (ai_score : Option Num) (normalized : Normalized f)
      → InRange (f.neg one) one (composite_of f total b ai_score normalized)
  unfolding composite_of
  composite_bounds total b ai_score normalized = clamp_one_bounds _

  confidence_bounds :
      (composite : Num) (level : StalenessLevel) (normalized : Normalized f)
      → InRange f.zero (hundred f o) (confidence_of f composite level normalized)
  unfolding confidence_of
  confidence_bounds composite level normalized =
      let c =
        clamp_bounds _ f.zero (percent f 10000) o.zero_finite (o.ratio_finite 10000 99)
          (zero-leb-hundred f o) in
      let finite =
        o.finite_between f.zero _ (percent f 10000) o.zero_finite (o.ratio_finite 10000 99) c.0
          c.1 in
      let b = reduction_bounds f o _ level finite in (b.0, b.1)

  weight_pos : (e : Engine) → f.ltb f.zero (weight_of f e) ≡ true
  weight_pos technical = o.percent_pos 40 (omega arith)
  weight_pos fundamental = o.percent_pos 25 (omega arith)
  weight_pos sentiment = o.percent_pos 20 (omega arith)
  weight_pos risk = o.percent_pos 15 (omega arith)

  total_weight_pos :
      (total : Num) (normalized : Normalized f)
      → f.ltb f.zero total ≡ true
      → f.ltb f.zero (total_weight f total normalized) ≡ true
  unfolding total_weight
  total_weight_pos total [] h = h
  total_weight_pos total ((e, v) ∷ rest) h =
      total_weight_pos (f.add total (weight_of f e)) rest
        (o.add_pos total (weight_of f e) (o.leb_of_ltb f.zero total h) (weight_pos e))

  total_weight-ne-zero :
      (e : Engine) (v : Num) (rest : Normalized f)
      → f.leb (total_weight f f.zero ((e, v) ∷ rest)) f.zero ≡ false
  unfolding total_weight
  total_weight-ne-zero e v rest = o.not_leb_of_ltb f.zero _ (
      total_weight_pos (f.add f.zero (weight_of f e)) rest
        (o.add_pos f.zero (weight_of f e) (o.leb_refl f.zero o.zero_finite) (weight_pos e)))

  abbrev pub InOption : Num → Num → Option Num → Type 0
  InOption lo hi none = ⊥
  InOption lo hi (some v) = InRange lo hi v

  -- What a response holds: with status ok a composite score between -1 and 1 and a confidence between 0
  -- and 100, and otherwise no action and no score.
  abbrev pub IsSound : Status → RecommendationResponse f → Type 0
  IsSound ok r =
      InOption (f.neg one) one r.composite_score × InOption f.zero (hundred f o) r.confidence
  IsSound stale r = (r.action ≡ none) × (r.confidence ≡ none) × (r.composite_score ≡ none)

  recommend-IsSound :
      (r : Request f) (total : Num) (b : Blend f) (ai_score : Option Num) (level : StalenessLevel)
      (normalized : Normalized f)
      → let out = recommend f r total b ai_score level normalized in IsSound out.status out
  unfolding recommend
  recommend-IsSound r total b ai_score level normalized =
      (composite_bounds total b ai_score normalized, confidence_bounds _ level normalized)

  gated-IsSound :
      (r : Request f) (ai_weight : Num) (shadow_mode : Bool) (ai_score : Option Num)
      (level : StalenessLevel) (e : Engine) (v : Num) (rest : Normalized f)
      → (out : RecommendationResponse f) × (gated f r ai_weight shadow_mode ai_score level
            ((e, v) ∷ rest)
          ≡ some out)
        × IsSound out.status out
  gated-IsSound r ai_weight shadow_mode ai_score level e v rest =
      let scores : Normalized f = (e, v) ∷ rest in
      let total = total_weight f f.zero scores in
      let heavy = total_weight-ne-zero e v rest in
      elim (Bool-cases (is_suppressed level)) [
        | inl s ↦
            (refused f scores r.now "data_too_stale" (some level), ground arith, (refl, refl, refl))
        | inr s ↦
            let b = blend_ai f ai_weight shadow_mode ai_score in
            (
              recommend f r total b ai_score level scores,
              ground arith,
              recommend-IsSound r total b ai_score level scores,
            )
      ]

  from_engines-IsSound :
      (r : Request f) (ai_weight : Num) (shadow_mode : Bool) (ai_score : Option Num)
      (normalized : Normalized f)
      → (out : RecommendationResponse f) × (from_engines f r ai_weight shadow_mode ai_score
            normalized
          ≡ some out)
        × IsSound out.status out
  from_engines-IsSound r ai_weight shadow_mode ai_score [] =
      (refused f [] r.now "no_engine_data" none, refl, (refl, refl, refl))
  from_engines-IsSound r ai_weight shadow_mode ai_score ((e, v) ∷ rest) =
      gated-IsSound r ai_weight shadow_mode ai_score
        (classify_staleness f r.thresholds
          (time_or f r.now (oldest_time f r.computed_at_per_engine ((e, v) ∷ rest))) r.now)
        e v rest

  -- `synthesize` returns for all inputs, with infinite scores and NaN too. With status ok the composite
  -- score lies between -1 and 1 and the confidence between 0 and 100; with status stale there is no
  -- action, no confidence and no score.
  pub synthesize-IsSound :
      (r : Request f) (ai_weight : Num) (shadow_mode : Bool) (ai_score : Option Num)
      → (out : RecommendationResponse f) × (synthesize f r ai_weight shadow_mode ai_score
          ≡ some out)
        × IsSound out.status out
  unfolding synthesize
  synthesize-IsSound r ai_weight shadow_mode ai_score =
      from_engines-IsSound r ai_weight shadow_mode ai_score (normalize_engines f r.engines)
