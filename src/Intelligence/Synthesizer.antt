-- ===== src/Intelligence/Synthesizer.antt =====
-- `synthesize` of backend/app/intelligence/synthesizer.py. The result is none where a weight is missing
-- from the empty table of weights, which raises.
pub mod Bounds
pub mod Shadow
pub mod Age
use nivara.Prelude.{
  ℕ, zero, suc, ◌+◌, ◌*◌, String, Bool, true, false, Option, none, some, List, [], ◌∷◌, ltb, length,
  if◌then◌else◌,
}
use nivara.Floats.{Floats}
use nivara.Intelligence.Staleness.{
  StalenessLevel, suppressed, is_suppressed, Thresholds, classify_staleness,
  apply_confidence_reduction,
}
use nivara.Intelligence.Explainers.{Engine, RecommendationContext, explain}
use nivara.Intelligence.Engines.{
  percent, clamp, clamp_one, EngineOutputs, Normalized, normalize_engines, total_weight, Blend,
  blend_ai, weighted_sum, sum_deviations, action_for, top_factors,
}

pub data Status : Type 0 where
  ok stale : Status

abbrev pub recommendation_ttl : ℕ
recommendation_ttl = 24 * 3600

module _ (f : Floats) where
  open f use {Num}

  pub record RecommendationResponse : Type 0 where
    pub status : Status
    pub action : Option String
    pub confidence : Option Num
    pub composite_score : Option Num
    pub engine_scores : Normalized f
    pub rationale : Option String
    pub expires_at : Option ℕ
    pub computed_at : ℕ
    pub reason : Option String
    pub explainer_used : Option String
    pub ai_blended : Bool
    pub staleness : Option StalenessLevel

  -- An explainer's name, and its text or the exception.
  pub record Explainer : Type 0 where
    pub provider_name : String
    pub run : RecommendationContext f → Option String

  abbrev pub refused : Normalized f → ℕ → String → Option StalenessLevel → RecommendationResponse
  refused scores now reason level = record {
    status = stale;
    action = none;
    confidence = none;
    composite_score = none;
    engine_scores = scores;
    rationale = none;
    expires_at = none;
    computed_at = now;
    reason = some reason;
    explainer_used = none;
    ai_blended = false;
    staleness = level;
  }

  abbrev pub earlier : Option ℕ → ℕ → ℕ
  earlier none t = t
  earlier (some u) t = if ltb u t then u else t

  -- `min(available_times)`; none where no engine has a time.
  abbrev pub oldest_time : (Engine → Option ℕ) → Normalized f → Option ℕ
  oldest_time computed_at [] = none
  oldest_time computed_at ((engine, v) ∷ rest) = elim (computed_at engine) [
    | none ↦ oldest_time computed_at rest
    | some t ↦ some (earlier (oldest_time computed_at rest) t)
  ]

  abbrev pub time_or : ℕ → Option ℕ → ℕ
  time_or now none = now
  time_or now (some t) = t

  -- The composite score before and after the AI score.
  abbrev pub plus_ai : Num → Blend f → Option Num → Num
  plus_ai composite b none = composite
  plus_ai composite b (some score) =
      if b.ai_blended then f.add composite (f.mul b.ai_weight (clamp_one f score)) else composite

  unfoldable pub composite_of : Num → Blend f → Option Num → Normalized f → Num
  unfolding weighted_sum clamp
  composite_of total b ai_score normalized =
      clamp_one f (plus_ai (weighted_sum f b.scale total f.zero normalized) b ai_score)

  abbrev pub capped_deviation : Num → Num
  capped_deviation abs_dev = if f.ltb (percent f 100) abs_dev then percent f 100 else abs_dev

  abbrev pub engine_count : Normalized f → ℕ
  engine_count [] = 1
  engine_count (x ∷ rest) = length (x ∷ rest)

  unfoldable pub confidence_of : Num → StalenessLevel → Normalized f → Num
  unfolding sum_deviations clamp apply_confidence_reduction
  confidence_of composite level normalized =
      let abs_dev =
        f.div (sum_deviations f composite f.zero normalized) (f.of_nat (engine_count normalized)) in
      apply_confidence_reduction f
        (clamp f (f.mul (percent f 10000) (f.sub (percent f 100) (capped_deviation abs_dev))) f.zero
          (percent f 10000))
        level

  -- The rationale and who gave it: the template stands in for an explainer that raises.
  abbrev pub rationale_of :
      (String → String) → RecommendationContext f → Option Explainer → Option (String × String)
  rationale_of upper ctx none = none
  rationale_of upper ctx (some e) = elim (e.run ctx) [
    | some text ↦ some (text, e.provider_name)
    | none ↦ some (explain f upper ctx, "template")
  ]

  abbrev pub text_part : Option (String × String) → Option String
  text_part none = none
  text_part (some (text, name)) = some text

  abbrev pub name_part : Option (String × String) → Option String
  name_part none = none
  name_part (some (text, name)) = some name

  -- The inputs besides the AI score.
  pub record Request : Type 0 where
    pub thresholds : Thresholds f
    pub engines : EngineOutputs f
    pub computed_at_per_engine : Engine → Option ℕ
    pub now : ℕ
    pub instrument_symbol : Option String
    pub explainer : Option Explainer
    pub upper : String → String

  abbrev pub context_of : Request → Num → Num → Normalized f → RecommendationContext f
  context_of r composite confidence normalized = record {
    action = action_for f composite;
    confidence = confidence;
    composite_score = composite;
    engine_scores = normalized;
    top_factors = top_factors f normalized;
    instrument_symbol = r.instrument_symbol;
  }

  unfoldable pub recommend :
      Request → Num → Blend f → Option Num → StalenessLevel → Normalized f → RecommendationResponse
  unfolding composite_of confidence_of action_for top_factors explain
  recommend r total b ai_score level normalized =
      let composite = composite_of total b ai_score normalized in
      let confidence = confidence_of composite level normalized in
      let rationale =
        rationale_of r.upper (context_of r composite confidence normalized) r.explainer in
      record {
        status = ok;
        action = some (action_for f composite);
        confidence = some confidence;
        composite_score = some composite;
        engine_scores = normalized;
        rationale = text_part rationale;
        expires_at = some (r.now + recommendation_ttl);
        computed_at = r.now;
        reason = none;
        explainer_used = name_part rationale;
        ai_blended = b.ai_blended;
        staleness = some level;
      }

  abbrev pub gated :
      Request
      → Num
      → Bool
      → Option Num
      → StalenessLevel
      → Normalized f
      → Option RecommendationResponse
  gated r ai_weight shadow_mode ai_score level normalized =
      let total = total_weight f f.zero normalized in
      if is_suppressed level
      then some (refused normalized r.now "data_too_stale" (some level))
      else if f.leb total f.zero
      then none
      else some
          (recommend r total (blend_ai f ai_weight shadow_mode ai_score) ai_score level normalized)

  abbrev pub from_engines :
      Request → Num → Bool → Option Num → Normalized f → Option RecommendationResponse
  from_engines r ai_weight shadow_mode ai_score [] = some (refused [] r.now "no_engine_data" none)
  from_engines r ai_weight shadow_mode ai_score (e ∷ rest) =
      let oldest = time_or r.now (oldest_time r.computed_at_per_engine (e ∷ rest)) in
      gated r ai_weight shadow_mode ai_score (classify_staleness f r.thresholds oldest r.now)
        (e ∷ rest)

  -- `synthesize`
  unfoldable pub synthesize : Request → Num → Bool → Option Num → Option RecommendationResponse
  unfolding recommend total_weight blend_ai normalize_engines classify_staleness
  synthesize r ai_weight shadow_mode ai_score =
      from_engines r ai_weight shadow_mode ai_score (normalize_engines f r.engines)
