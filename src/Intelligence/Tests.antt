-- ===== src/Intelligence/Tests.antt =====
-- Runs of the portfolio intelligence on amounts and numbers in hundredths.
use nivara.Prelude.{
  ℕ, String, true, false, not, ◌&&◌, none, some, List, [], ◌∷◌, ◌≡◌, refl, str_eq, if◌then◌else◌,
}
use nivara.Decimals.{Decimals, hundredths}
use nivara.Floats.{Floats, hundredth_floats}
use nivara.Portfolio.Symbols.{Texts}
use nivara.Rates.Benchmark.{BenchmarkReturn}
use nivara.Intelligence.Portfolio.{
  Market, india, us, other, Enriched, rebalancing_suggestions, market_for_exchange,
}
use nivara.Intelligence.FxAttribution.{
  Inputs, Outcome, attributed, attribute, compute_fx_attribution,
}
use nivara.Intelligence.Portfolio.Weights.{
  names_sector, concentrated_value, value_from, rebalancing-names,
}
use nivara.Intelligence.Portfolio.Benchmarks.{per_market_alpha, blended_benchmark_return}
use nivara.Intelligence.Portfolio.Markets.{benchmarked, returns-benchmarked}

abbrev d : Decimals
d = hundredths

abbrev f : Floats
f = hundredth_floats

abbrev to_float : ℕ → ℕ
to_float x = x

abbrev t : Texts
t = record { strip = λ s. s; upper = λ s. if str_eq s "lse" then "LSE" else s; lower = λ s. s }

elsewhere : market_for_exchange t "lse" ≡ other
unfolding market_for_exchange
elsewhere = refl

abbrev position : Market → String → ℕ → Enriched d
position market sector value = record {
  instrument_id = 5;
  symbol = "AAPL";
  exchange = "NASDAQ";
  market = market;
  sector = sector;
  native_currency = "USD";
  market_value_native = value;
  market_value_base = value;
}

abbrev positions : List (Enriched d)
positions =
    position us "Energy" 3000
    ∷ position india "Health" 5000
    ∷ position us "Energy" 2000
    ∷ position other "Metals" 1000
    ∷ []

-- Energy and health have 5,000 each of 11,000.
energy :
    names_sector d f to_float "Energy" (rebalancing_suggestions d f to_float 11000 positions) ≡ true
unfolding rebalancing_suggestions
energy = refl

rebalancing-names_example :
    names_sector d f to_float "Metals" (rebalancing_suggestions d f to_float 11000 positions) ≡ (
      not (d.leb 11000 d.zero)
      && concentrated_value d f to_float 11000 (value_from d none "Metals" positions))
rebalancing-names_example = rebalancing-names d f to_float 11000 "Metals" positions

abbrev bench : String → BenchmarkReturn d
bench symbol = record {
  symbol = symbol;
  currency = "USD";
  period_days = 30;
  period_start = 0;
  period_end = 100;
  close_start = some 500000;
  close_end = some 525000;
  total_return = 5;
  stale = false;
}

returns-benchmarked_example :
    (per_market_alpha d f to_float (bench "^NSEI") (bench "^GSPC") positions
      ≡ per_market_alpha d f to_float (bench "^NSEI") (bench "^GSPC") (benchmarked d positions))
    × (blended_benchmark_return d f to_float t [] "USD" 11000
          (bench "^NSEI")
          (bench "^GSPC")
          positions
        ≡ blended_benchmark_return d f to_float t [] "USD" 11000
            (bench "^NSEI")
            (bench "^GSPC")
            (benchmarked d positions))
returns-benchmarked_example =
    returns-benchmarked d f to_float t [] "USD" 11000 (bench "^NSEI") (bench "^GSPC") positions

abbrev apple : Inputs hundredths
apple = record {
  cost_basis_native = 15000;
  current_price_native = 16200;
  native_ccy = "USD";
  base_ccy = "INR";
  fx_at_open = 8200;
  fx_current = 8446;
  symbol = some "AAPL";
}

abbrev outcome : Inputs hundredths → Outcome hundredths
outcome i = compute_fx_attribution hundredths (λ s. s) 10000 (λ x. some x) (λ x. "") i

-- The stock rises by 8 per cent and the dollar by 3, which gives 11 and the cross term.
abbrev returns_of : Outcome hundredths → List ℕ
returns_of (attributed out) = out.stock_return_pct ∷ out.fx_impact_pct ∷ out.base_return_pct ∷ []
returns_of _ = []

apple_in_rupees : returns_of (outcome apple) ≡ 800 ∷ 300 ∷ 1100 ∷ []
unfolding compute_fx_attribution attribute
apple_in_rupees = refl
