-- ===== src/Intelligence/Engines.antt =====
-- The helpers of backend/app/intelligence/synthesizer.py: the engines' scores, their weights, and the
-- share of the AI score. A float literal is a number of hundredths; a sum over a set of engines runs in
-- the order in which they were normalized.
use nivara.Prelude.{
  ℕ, String, Bool, true, false, ◌&&◌, Option, none, some, List, [], ◌∷◌, if◌then◌else◌,
}
use nivara.Floats.{Floats}
use nivara.Intelligence.Explainers.{Engine, technical, fundamental, sentiment, risk}

module _ (f : Floats) where
  open f use {Num}

  abbrev pub percent : ℕ → Num
  percent n = f.ratio n 100

  -- `max(lo, min(hi, value))`
  abbrev pub at_most : Num → Num → Num
  at_most hi value = if f.ltb value hi then value else hi

  abbrev pub at_least : Num → Num → Num
  at_least lo value = if f.ltb lo value then value else lo

  unfoldable pub clamp : Num → Num → Num → Num
  clamp value lo hi = at_least lo (at_most hi value)

  abbrev pub clamp_one : Num → Num
  clamp_one value = clamp value (f.neg (percent 100)) (percent 100)

  abbrev pub deviation : Num → Num
  deviation score = f.sub score (percent 5000)

  -- `_normalize_fundamental`
  abbrev pub normalize_fundamental : Num → Num
  normalize_fundamental score = clamp_one (f.div (deviation score) (percent 5000))

  -- `_normalize_risk(...) or 0.0`
  abbrev pub normalize_risk : Num → Num
  normalize_risk score =
      let v = clamp_one (f.div (f.neg (deviation score)) (percent 5000)) in
      if f.leb v f.zero && f.leb f.zero v then f.zero else v

  -- The scores of the engines that ran; none where the engine or its score is missing.
  pub record EngineOutputs : Type 0 where
    pub technical_score : Option Num
    pub fundamental_score : Option Num
    pub sentiment_score : Option Num
    pub risk_score : Option Num

  abbrev pub Normalized : Type 0
  Normalized = List (Engine × Num)

  abbrev pub entry : Engine → (Num → Num) → Option Num → Normalized → Normalized
  entry engine normalize none rest = rest
  entry engine normalize (some score) rest = (engine, normalize score) ∷ rest

  -- `_normalize_engines`
  unfoldable pub normalize_engines : EngineOutputs → Normalized
  unfolding clamp
  normalize_engines out =
      entry technical (λ v. clamp_one v) out.technical_score
        (entry fundamental (λ v. normalize_fundamental v) out.fundamental_score
          (entry sentiment (λ v. clamp_one v) out.sentiment_score
            (entry risk (λ v. normalize_risk v) out.risk_score [])))

  -- `WEIGHTS`
  abbrev pub weight_of : Engine → Num
  weight_of technical = percent 40
  weight_of fundamental = percent 25
  weight_of sentiment = percent 20
  weight_of risk = percent 15

  unfoldable pub total_weight : Num → Normalized → Num
  total_weight total [] = total
  total_weight total ((engine, v) ∷ rest) = total_weight (f.add total (weight_of engine)) rest

  -- `MAX_AI_WEIGHT`
  abbrev pub max_ai_weight : Num
  max_ai_weight = percent 30

  pub record Blend : Type 0 where
    pub scale : Option Num
    pub ai_weight : Num
    pub ai_blended : Bool

  abbrev pub no_blend : Blend
  no_blend = record { scale = none; ai_weight = f.zero; ai_blended = false }

  -- `_blend_ai`; `scale` is what each weight is multiplied by, none where the weights stay.
  unfoldable pub blend_ai : Num → Bool → Option Num → Blend
  blend_ai ai_weight_cfg shadow_mode none = no_blend
  blend_ai ai_weight_cfg true (some score) = no_blend
  blend_ai ai_weight_cfg false (some score) =
      let ai_weight =
        at_least f.zero
          (if f.ltb max_ai_weight ai_weight_cfg then max_ai_weight else ai_weight_cfg) in
      if f.leb ai_weight f.zero then no_blend else record {
        scale = some (f.sub (percent 100) ai_weight);
        ai_weight = ai_weight;
        ai_blended = true;
      }

  abbrev pub scaled : Option Num → Num → Num
  scaled none weight = weight
  scaled (some s) weight = f.mul weight s

  -- `sum(new_det_weights[k] * normalized[k] for k in normalized)`
  unfoldable pub weighted_sum : Option Num → Num → Num → Normalized → Num
  weighted_sum s total sum [] = sum
  weighted_sum s total sum ((engine, v) ∷ rest) =
      weighted_sum s total (f.add sum (f.mul (scaled s (f.div (weight_of engine) total)) v)) rest

  unfoldable pub sum_deviations : Num → Num → Normalized → Num
  sum_deviations composite sum [] = sum
  sum_deviations composite sum ((engine, v) ∷ rest) =
      sum_deviations composite (f.add sum (f.abs (f.sub v composite))) rest

  -- `_action_for`
  unfoldable pub action_for : Num → String
  action_for composite =
      if f.ltb (percent 60) composite
      then "strong_buy"
      else if f.ltb (percent 30) composite
      then "buy"
      else if f.leb (f.neg (percent 30)) composite
      then "hold"
      else if f.leb (f.neg (percent 60)) composite
      then "sell"
      else "strong_sell"

  abbrev pub label_of : Engine → Bool → String
  label_of technical true = "technicals bullish"
  label_of technical false = "technicals bearish"
  label_of fundamental true = "fundamentals solid"
  label_of fundamental false = "fundamentals weak"
  label_of sentiment true = "sentiment positive"
  label_of sentiment false = "sentiment negative"
  label_of risk true = "risk favourable"
  label_of risk false = "risk elevated"

  abbrev pub insert_factor : String × Num → List (String × Num) → List (String × Num)
  insert_factor (t, v) [] = (t, v) ∷ []
  insert_factor (t, v) ((u, w) ∷ rest) =
      if f.ltb w v then (t, v) ∷ (u, w) ∷ rest else (u, w) ∷ insert_factor (t, v) rest

  -- A stable sort, the greatest first.
  abbrev pub sort_factors : List (String × Num) → List (String × Num) → List (String × Num)
  sort_factors sorted [] = sorted
  sort_factors sorted (factor ∷ rest) = sort_factors (insert_factor factor sorted) rest

  abbrev pub factors_of : Normalized → List (String × Num)
  factors_of [] = []
  factors_of ((engine, v) ∷ rest) = (label_of engine (f.leb f.zero v), f.abs v) ∷ factors_of rest

  abbrev pub first_three : List (String × Num) → List String
  first_three [] = []
  first_three (a ∷ []) = a.0 ∷ []
  first_three (a ∷ b ∷ []) = a.0 ∷ b.0 ∷ []
  first_three (a ∷ b ∷ c ∷ rest) = a.0 ∷ b.0 ∷ c.0 ∷ []

  -- `_top_factors`
  unfoldable pub top_factors : Normalized → List String
  top_factors normalized = first_three (sort_factors [] (factors_of normalized))
