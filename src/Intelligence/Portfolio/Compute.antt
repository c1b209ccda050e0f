-- ===== src/Intelligence/Portfolio/Compute.antt =====
-- `compute` of backend/app/intelligence/portfolio.py.
use nivara.Prelude.{ℕ, String, Bool, true, Option, List, [], ◌∷◌}
use nivara.Decimals.{Decimals}
use nivara.Floats.{Floats}
use nivara.Redis.Values.{Values}
use nivara.Portfolio.Symbols.{Instrument, Texts}
use nivara.Rates.Fx.{FxRate}
use nivara.Rates.Summary.{Joined}
use nivara.Rates.Benchmark.{
  BenchmarkKey, BenchmarkReturn, Payload, get_return, nifty_symbol, sp500_symbol,
}
use nivara.Intelligence.Portfolio.{
  Enriched, load_positions, total_base, RebalancingSuggestion, rebalancing_suggestions,
}
use nivara.Intelligence.Portfolio.Allocation.{
  ByMarket, sector_allocation, Diversification, diversification, unclassified_markets,
}
use nivara.Intelligence.Portfolio.Benchmarks.{
  PerMarketAlpha, per_market_alpha, blended_benchmark_return,
}

module _ (d : Decimals) where
  open d use {Num}

  module _ (f : Floats) (to_float : d.Num → f.Num) where
    pub record Response : Type 0 where
      pub base_currency : String
      pub sector_allocation : ByMarket d (List (String × f.Num))
      pub diversification : Diversification d f to_float
      pub per_market_alpha : List (PerMarketAlpha d f to_float)
      pub blended_benchmark_return : f.Num
      pub portfolio_return : f.Num
      pub portfolio_alpha : f.Num
      pub portfolio_return_stale : Bool
      pub unclassified_markets : List String
      pub rebalancing_suggestions : List (RebalancingSuggestion d f to_float)

    abbrev pub empty_response : String → Response
    empty_response base_currency = record {
      base_currency = base_currency;
      sector_allocation = [];
      diversification = record { hhi = f.zero; geography = [] };
      per_market_alpha = [];
      blended_benchmark_return = f.zero;
      portfolio_return = f.zero;
      portfolio_alpha = f.zero;
      portfolio_return_stale = true;
      unclassified_markets = [];
      rebalancing_suggestions = [];
    }

    unfoldable pub response_of :
        Texts
        → List (FxRate d)
        → String
        → BenchmarkReturn d
        → BenchmarkReturn d
        → List (Enriched d)
        → Response
    unfolding sector_allocation diversification per_market_alpha blended_benchmark_return total_base
        rebalancing_suggestions unclassified_markets
    response_of t rates base nifty sp500 positions =
        let total = total_base d d.zero positions in
        let blended =
          blended_benchmark_return d f to_float t rates base total nifty sp500 positions in
        record {
          base_currency = base;
          sector_allocation = sector_allocation d f to_float positions;
          diversification = diversification d f to_float total positions;
          per_market_alpha = per_market_alpha d f to_float nifty sp500 positions;
          blended_benchmark_return = blended;
          portfolio_return = f.zero;
          portfolio_alpha = f.sub f.zero blended;
          portfolio_return_stale = true;
          unclassified_markets = unclassified_markets d t positions;
          rebalancing_suggestions = rebalancing_suggestions d f to_float total positions;
        }

    module _ (redis : Values BenchmarkKey (Payload d)) where
      -- Both benchmarks are read, one after the other.
      abbrev pub with_benchmarks :
          Texts
          → List (FxRate d)
          → String
          → Bool
          → ℕ
          → ℕ
          → (String → Option (List Num))
          → List (Enriched d)
          → redis.Store
          → Response × redis.Store
      with_benchmarks t rates base up period_days now closes positions store =
          let (nifty, store') =
            get_return d redis up nifty_symbol period_days now (closes nifty_symbol) store in
          let (sp500, store'') =
            get_return d redis up sp500_symbol period_days now (closes sp500_symbol) store' in
          (response_of t rates base nifty sp500 positions, store'')

      abbrev pub compute_for :
          Texts
          → List (FxRate d)
          → String
          → Bool
          → ℕ
          → ℕ
          → (String → Option (List Num))
          → List (Enriched d)
          → redis.Store
          → Response × redis.Store
      compute_for t rates base up period_days now closes [] store = (empty_response base, store)
      compute_for t rates base up period_days now closes (p ∷ positions) store =
          with_benchmarks t rates base up period_days now closes (p ∷ positions) store

      -- `compute`, on the joined rows of the user.
      unfoldable pub compute :
          Texts
          → (Instrument → Option String)
          → List (FxRate d)
          → String
          → Bool
          → ℕ
          → ℕ
          → (String → Option (List Num))
          → List (Joined d)
          → redis.Store
          → Response × redis.Store
      unfolding load_positions response_of
      compute t sector rates base_currency up period_days now closes rows store =
          let base = t.upper base_currency in
          compute_for t rates base up period_days now closes
            (load_positions d t sector rates base rows) store
