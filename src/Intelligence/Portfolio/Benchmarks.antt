-- ===== src/Intelligence/Portfolio/Benchmarks.antt =====
-- `_per_market_alpha`, `_fx_change_pct` and `_blended_benchmark_return` of
-- backend/app/intelligence/portfolio.py.
use nivara.Prelude.{
  String, Bool, true, Option, none, some, List, [], ◌∷◌, ◌++◌, str_eq, if◌then◌else◌,
}
use nivara.Decimals.{Decimals}
use nivara.Floats.{Floats}
use nivara.Portfolio.Symbols.{Texts}
use nivara.Rates.Fx.{FxRate, get_rate}
use nivara.Rates.Benchmark.{BenchmarkReturn}
use nivara.Intelligence.Portfolio.{Market, india, us, other, Enriched}
use nivara.Intelligence.Portfolio.Allocation.{ByMarket, has_market, geo_weights}

module _ (d : Decimals) where
  open d use {Num}

  module _ (f : Floats) (to_float : d.Num → f.Num) where
    abbrev pub one : f.Num
    one = f.ratio 100 100

    pub record PerMarketAlpha : Type 0 where
      pub market : Market
      pub benchmark_symbol : String
      pub benchmark_currency : String
      pub portfolio_return : f.Num
      pub benchmark_return : f.Num
      pub alpha : f.Num
      pub stale_benchmark : Bool
      pub portfolio_return_stale : Bool

    abbrev pub alpha_of : Market → BenchmarkReturn d → PerMarketAlpha
    alpha_of market bench = record {
      market = market;
      benchmark_symbol = bench.symbol;
      benchmark_currency = bench.currency;
      portfolio_return = f.zero;
      benchmark_return = to_float bench.total_return;
      alpha = f.sub f.zero (to_float bench.total_return);
      stale_benchmark = bench.stale;
      portfolio_return_stale = true;
    }

    abbrev pub alpha_if : Bool → Market → BenchmarkReturn d → List PerMarketAlpha
    alpha_if present market bench = if present then alpha_of market bench ∷ [] else []

    -- `_per_market_alpha`; "IN" sorts before "US".
    unfoldable pub per_market_alpha :
        BenchmarkReturn d → BenchmarkReturn d → List (Enriched d) → List PerMarketAlpha
    per_market_alpha nifty sp500 positions =
        alpha_if (has_market d india positions) india nifty
        ++ alpha_if (has_market d us positions) us sp500

    abbrev pub change_with : Option Num → Option Num → f.Num
    change_with none end_rate = f.zero
    change_with (some start_rate) none = f.zero
    change_with (some start_rate) (some end_rate) =
        if d.leb start_rate d.zero then f.zero else f.sub (to_float (d.div end_rate start_rate)) one

    -- `_fx_change_pct`
    unfoldable pub fx_change_pct :
        Texts → List (FxRate d) → String → String → BenchmarkReturn d → f.Num
    fx_change_pct t rates native base bench =
        if str_eq (t.upper native) (t.upper base)
        then f.zero
        else change_with (get_rate d t native base (some bench.period_start) rates)
            (get_rate d t native base (some bench.period_end) rates)

    -- The benchmark of a market and its currency.
    abbrev pub bench_of :
        BenchmarkReturn d → BenchmarkReturn d → Market → Option (BenchmarkReturn d × String)
    bench_of nifty sp500 india = some (nifty, "INR")
    bench_of nifty sp500 us = some (sp500, "USD")
    bench_of nifty sp500 other = none

    abbrev pub part_of :
        Texts
        → List (FxRate d)
        → String
        → Num
        → Num
        → Option (BenchmarkReturn d × String)
        → f.Num
        → f.Num
    part_of t rates base total weight none blended = blended
    part_of t rates base total weight (some (bench, native)) blended =
        if d.leb weight d.zero
        then blended
        else f.add blended (
            f.mul (to_float (d.div weight total)) (
              f.sub
                (f.mul (f.add one (to_float bench.total_return))
                  (f.add one (fx_change_pct t rates native base bench)))
                one))

    unfoldable pub blend_markets :
        Texts
        → List (FxRate d)
        → String
        → Num
        → BenchmarkReturn d
        → BenchmarkReturn d
        → f.Num
        → ByMarket d Num
        → f.Num
    unfolding fx_change_pct
    blend_markets t rates base total nifty sp500 blended [] = blended
    blend_markets t rates base total nifty sp500 blended ((market, weight) ∷ rest) =
        blend_markets t rates base total nifty sp500
          (part_of t rates base total weight (bench_of nifty sp500 market) blended) rest

    -- `_blended_benchmark_return`
    unfoldable pub blended_benchmark_return :
        Texts
        → List (FxRate d)
        → String
        → Num
        → BenchmarkReturn d
        → BenchmarkReturn d
        → List (Enriched d)
        → f.Num
    unfolding blend_markets geo_weights
    blended_benchmark_return t rates base total nifty sp500 positions =
        if d.leb total d.zero
        then f.zero
        else blend_markets t rates base total nifty sp500 f.zero (geo_weights d [] positions)
