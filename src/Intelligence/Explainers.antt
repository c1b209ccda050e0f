-- ===== src/Intelligence/Explainers.antt =====
-- backend/app/intelligence/explainers/base.py and template.py.
use Prim.Native.String.{◌++◌ as append}
use nivara.Prelude.{String, Option, none, some, List, [], ◌∷◌}
use nivara.Floats.{Floats}

pub data Engine : Type 0 where
  technical fundamental sentiment risk : Engine

module _ (f : Floats) where
  open f use {Num}

  pub record RecommendationContext : Type 0 where
    pub action : String
    pub confidence : Num
    pub composite_score : Num
    pub engine_scores : List (Engine × Num)
    pub top_factors : List String
    pub instrument_symbol : Option String

  -- `"; ".join(...)`
  abbrev pub join_factors : String → List String → String
  join_factors first [] = first
  join_factors first (x ∷ xs) = append first (append "; " (join_factors x xs))

  abbrev pub factors_clause : List String → String
  factors_clause [] = ""
  factors_clause (x ∷ xs) = append " Key factors: " (append (join_factors x xs) ".")

  -- `ctx.instrument_symbol or "the instrument"`
  abbrev pub symbol_or : Option String → String
  symbol_or none = "the instrument"
  symbol_or (some String.[]) = "the instrument"
  symbol_or (some (String.◌∷◌ c s)) = String.◌∷◌ c s

  -- `TemplateExplainer.explain`, with `str.upper`.
  unfoldable pub explain : (String → String) → RecommendationContext → String
  explain upper ctx = append (upper ctx.action) (
      append " for " (
        append (symbol_or ctx.instrument_symbol) (
          append " with confidence " (
            append (f.fixed_1 ctx.confidence) (
              append "% (composite " (
                append (f.fixed_2 ctx.composite_score)
                  (append ")." (factors_clause ctx.top_factors))))))))
