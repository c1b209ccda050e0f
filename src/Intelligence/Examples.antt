-- ===== src/Intelligence/Examples.antt =====
-- Runs of the synthesizer on numbers in hundredths.
use nivara.Prelude.{true, false, ◌&&◌, none, some, ◌≡◌, refl}
use nivara.Floats.{Floats, hundredth_floats, hundredth_floats-IsOrdered}
use nivara.Intelligence.Staleness.{Thresholds}
use nivara.Intelligence.Engines.{normalize_engines, clamp, blend_ai, total_weight, weighted_sum}
use nivara.Intelligence.Synthesizer.{RecommendationResponse, Request, composite_of, synthesize}
use nivara.Intelligence.Synthesizer.Bounds.{IsSound, synthesize-IsSound}
use nivara.Intelligence.Synthesizer.Age.{is_ok, any_score, pairs_of, is_usable, synthesize-status}
use nivara.Intelligence.Synthesizer.Shadow.{synthesize-shadow}

abbrev f : Floats
f = hundredth_floats

abbrev limits : Thresholds f
limits = record { fresh_hours = 100; aging_hours = 600; stale_hours = 2400 }

-- Technical and fundamental scores, computed two hours before.
abbrev request : Request f
request = record {
  thresholds = limits;
  engines = record {
    technical_score = some 80;
    fundamental_score = some 9000;
    sentiment_score = none;
    risk_score = none;
  };
  computed_at_per_engine = λ e. some 100_000;
  now = 107_200;
  instrument_symbol = some "AAPL";
  explainer = none;
  upper = λ s. s;
}

-- (40 * 0.80 + 25 * 0.80) / 65, with the rounding of hundredths.
composite_runs :
    composite_of f
      (total_weight f 0 (normalize_engines f request.engines))
      (blend_ai f 50 false none)
      none
      (normalize_engines f request.engines)
    ≡ 78
unfolding composite_of normalize_engines total_weight blend_ai weighted_sum clamp
composite_runs = refl

synthesize-IsSound_example :
    (out : RecommendationResponse f) × (synthesize f request 50 false (some 90) ≡ some out)
    × IsSound f hundredth_floats-IsOrdered out.status out
synthesize-IsSound_example =
    synthesize-IsSound f hundredth_floats-IsOrdered request 50 false (some 90)

synthesize-shadow_example :
    synthesize f request 50 true (some 90) ≡ synthesize f request 0 true none
synthesize-shadow_example = synthesize-shadow f request 50 (some 90)

abbrev answer :
    (out : RecommendationResponse f) × (synthesize f request 50 false (some 90) ≡ some out)
    × IsSound f hundredth_floats-IsOrdered out.status out
answer = synthesize-IsSound f hundredth_floats-IsOrdered request 50 false (some 90)

synthesize-status_example :
    is_ok f answer.0.status ≡ (any_score f (pairs_of f request) && is_usable f request 100_000)
synthesize-status_example =
    synthesize-status f request 50 false (some 90) answer.0 100_000 answer.1 refl
