-- ===== src/Intelligence/Synthesizer/Shadow.antt =====
-- The gates of a synthesis: the age of the data, and the AI score
-- (backend/app/intelligence/synthesizer.py).
use nivara.Prelude.{Bool, true, false, Option, none, some, [], ◌∷◌, ◌≡◌, refl, arith}
use nivara.Floats.{Floats, IsOrdered}
use nivara.Intelligence.Staleness.{StalenessLevel}
use nivara.Intelligence.Engines.{
  max_ai_weight, Normalized, normalize_engines, total_weight, no_blend, blend_ai,
}
use nivara.Intelligence.Synthesizer.{
  Request, composite_of, recommend, gated, from_engines, plus_ai, synthesize,
}

module _ (f : Floats) where
  open f use {Num}

  blend_ai-shadow :
      (ai_weight : Num) (ai_score : Option Num) → blend_ai f ai_weight true ai_score ≡ no_blend f
  unfolding blend_ai
  blend_ai-shadow ai_weight none = refl
  blend_ai-shadow ai_weight (some score) = refl

  plus_ai-no_blend :
      (composite : Num) (ai_score : Option Num)
      → plus_ai f composite (no_blend f) ai_score ≡ composite
  plus_ai-no_blend composite none = refl
  plus_ai-no_blend composite (some score) = refl

  composite_of-no_blend :
      (total : Num) (ai_score : Option Num) (normalized : Normalized f)
      → composite_of f total (no_blend f) ai_score normalized
        ≡ composite_of f total (no_blend f) none normalized
  unfolding composite_of
  composite_of-no_blend total none normalized = refl
  composite_of-no_blend total (some score) normalized = refl

  recommend-no_blend :
      (r : Request f) (total : Num) (ai_score : Option Num) (level : StalenessLevel)
      (normalized : Normalized f)
      → recommend f r total (no_blend f) ai_score level normalized
        ≡ recommend f r total (no_blend f) none level normalized
  unfolding recommend
  recommend-no_blend r total ai_score level normalized =
      cc (composite_of-no_blend total ai_score normalized)

  gated-shadow :
      (r : Request f) (ai_weight : Num) (ai_score : Option Num) (level : StalenessLevel)
      (normalized : Normalized f)
      → gated f r ai_weight true ai_score level normalized
        ≡ gated f r f.zero true none level normalized
  gated-shadow r ai_weight ai_score level normalized = cc (
    blend_ai-shadow ai_weight ai_score,
    blend_ai-shadow f.zero none,
    recommend-no_blend r (total_weight f f.zero normalized) ai_score level normalized,
  )

  from_engines-shadow :
      (r : Request f) (ai_weight : Num) (ai_score : Option Num) (normalized : Normalized f)
      → from_engines f r ai_weight true ai_score normalized
        ≡ from_engines f r f.zero true none normalized
  from_engines-shadow r ai_weight ai_score [] = refl
  from_engines-shadow r ai_weight ai_score (e ∷ rest) =
      gated-shadow r ai_weight ai_score _ (e ∷ rest)

  -- In shadow mode the AI score and its weight change nothing: the response is the one without an AI
  -- score, its rationale included.
  pub synthesize-shadow :
      (r : Request f) (ai_weight : Num) (ai_score : Option Num)
      → synthesize f r ai_weight true ai_score ≡ synthesize f r f.zero true none
  unfolding synthesize
  synthesize-shadow r ai_weight ai_score =
      from_engines-shadow r ai_weight ai_score (normalize_engines f r.engines)

  zero_bounds :
      (o : IsOrdered f) → (f.leb f.zero f.zero ≡ true) × (f.leb f.zero (max_ai_weight f) ≡ true)
  zero_bounds o = (
    o.leb_refl f.zero o.zero_finite,
    o.leb_of_ltb f.zero (max_ai_weight f) (o.percent_pos 30 (omega arith)),
  )

  -- The share of the AI score is at most 0.30, whatever weight is configured, NaN included, and it is
  -- never negative.
  pub blend_ai_bounds :
      (o : IsOrdered f) (ai_weight : Num) (shadow_mode : Bool) (ai_score : Option Num)
      → (f.leb f.zero (blend_ai f ai_weight shadow_mode ai_score).ai_weight ≡ true)
        × (f.leb (blend_ai f ai_weight shadow_mode ai_score).ai_weight (max_ai_weight f) ≡ true)
  unfolding blend_ai
  blend_ai_bounds o ai_weight shadow_mode none = zero_bounds o
  blend_ai_bounds o ai_weight true (some score) = zero_bounds o
  blend_ai_bounds o ai_weight false (some score) = ground (
    arith,
    zero_bounds o,
    o.leb_refl (max_ai_weight f) (o.ratio_finite 30 99),
    o.leb_of_ltb f.zero ai_weight,
    o.leb_of_not_ltb f.zero ai_weight (max_ai_weight f),
    o.ratio_finite 30 99,
  )
