-- ===== src/Intelligence/Portfolio/Markets.antt =====
-- A market without a benchmark takes no part in the returns
-- (backend/app/intelligence/portfolio.py).
use nivara.Prelude.{
  ℕ, String, Bool, true, false, Option, List, [], ◌∷◌, ◌≡◌, refl, arith, if◌then◌else◌, ap,
}
use nivara.Decimals.{Decimals}
use nivara.Floats.{Floats}
use nivara.Redis.Values.{Values}
use nivara.Portfolio.Symbols.{Instrument, Texts}
use nivara.Rates.Fx.{FxRate}
use nivara.Rates.Summary.{Joined}
use nivara.Rates.Benchmark.{BenchmarkKey, BenchmarkReturn, Payload}
use nivara.Intelligence.Portfolio.{Market, india, us, other, Enriched, load_positions}
use nivara.Intelligence.Portfolio.Allocation.{ByMarket, add_market, geo_weights, has_market}
use nivara.Intelligence.Portfolio.Benchmarks.{
  per_market_alpha, bench_of, part_of, blend_markets, blended_benchmark_return,
}
use nivara.Intelligence.Portfolio.Compute.{empty_response, compute_for, compute}

abbrev pub is_benchmarked : Market → Bool
is_benchmarked other = false
is_benchmarked _ = true

module _ (d : Decimals) where
  open d use {Num}

  abbrev pub benchmarked : List (Enriched d) → List (Enriched d)
  benchmarked [] = []
  benchmarked (p ∷ positions) =
      if is_benchmarked p.market then p ∷ benchmarked positions else benchmarked positions

  abbrev without_other : ByMarket d Num → ByMarket d Num
  without_other [] = []
  without_other ((m, v) ∷ rest) =
      if is_benchmarked m then (m, v) ∷ without_other rest else without_other rest

  without_other-add_market :
      (m : Market) (value : Num) (w : ByMarket d Num)
      → without_other (add_market d m value w)
        ≡ (if is_benchmarked m then add_market d m value (without_other w) else without_other w)
  without_other-add_market india value [] = refl
  without_other-add_market us value [] = refl
  without_other-add_market other value [] = refl
  without_other-add_market m value ((n, v) ∷ rest) =
      ground (arith, without_other-add_market m value rest)

  without_other-geo_weights :
      (w : ByMarket d Num) (positions : List (Enriched d))
      → without_other (geo_weights d w positions)
        ≡ geo_weights d (without_other w) (benchmarked positions)
  unfolding geo_weights
  without_other-geo_weights w [] = refl
  without_other-geo_weights w (p ∷ positions) = ground (
    arith,
    without_other-geo_weights (add_market d p.market p.market_value_base w) positions,
    without_other-add_market p.market p.market_value_base w,
  )

  has_market-benchmarked :
      (positions : List (Enriched d))
      → (has_market d india (benchmarked positions) ≡ has_market d india positions)
        × (has_market d us (benchmarked positions) ≡ has_market d us positions)
  has_market-benchmarked [] = (refl, refl)
  has_market-benchmarked (p ∷ positions) = ground (arith, has_market-benchmarked positions)

  module _ (f : Floats) (to_float : d.Num → f.Num) where
    blend_markets-without_other :
        (t : Texts) (rates : List (FxRate d)) (base : String) (total : Num)
        (nifty sp500 : BenchmarkReturn d) (blended : f.Num) (w : ByMarket d Num)
        → blend_markets d f to_float t rates base total nifty sp500 blended (without_other w)
          ≡ blend_markets d f to_float t rates base total nifty sp500 blended w
    unfolding blend_markets
    blend_markets-without_other t rates base total nifty sp500 blended [] = refl
    blend_markets-without_other t rates base total nifty sp500 blended ((india, v) ∷ rest) =
        blend_markets-without_other t rates base total nifty sp500
          (part_of d f to_float t rates base total v (bench_of d f to_float nifty sp500 india)
            blended)
          rest
    blend_markets-without_other t rates base total nifty sp500 blended ((us, v) ∷ rest) =
        blend_markets-without_other t rates base total nifty sp500
          (part_of d f to_float t rates base total v (bench_of d f to_float nifty sp500 us) blended)
          rest
    blend_markets-without_other t rates base total nifty sp500 blended ((other, v) ∷ rest) =
        blend_markets-without_other t rates base total nifty sp500 blended rest

    -- Positions on exchanges without a benchmark change neither the per-market alphas nor, for a given
    -- total, the blended benchmark return: both are those of the Indian and US positions alone.
    pub returns-benchmarked :
        (t : Texts) (rates : List (FxRate d)) (base : String) (total : Num)
        (nifty sp500 : BenchmarkReturn d) (positions : List (Enriched d))
        → (per_market_alpha d f to_float nifty sp500 positions
            ≡ per_market_alpha d f to_float nifty sp500 (benchmarked positions))
          × (blended_benchmark_return d f to_float t rates base total nifty sp500 positions
              ≡ blended_benchmark_return d f to_float t rates base total nifty sp500
                  (benchmarked positions))
    unfolding per_market_alpha blended_benchmark_return
    returns-benchmarked t rates base total nifty sp500 positions = (
      ground (arith, has_market-benchmarked positions),
      ground (
        arith,
        without_other-geo_weights [] positions,
        blend_markets-without_other t rates base total nifty sp500 f.zero
            (geo_weights d [] positions),
      ),
    )

    -- With no open position that has a rate, `compute` reads no benchmark: the store stays as it was,
    -- every figure of the response is zero, and no list of it has an entry.
    pub compute-empty :
        (redis : Values BenchmarkKey (Payload d)) (t : Texts) (sector : Instrument → Option String)
        (rates : List (FxRate d)) (base : String) (up : Bool) (days now : ℕ)
        (closes : String → Option (List Num)) (rows : List (Joined d)) (store : redis.Store)
        → load_positions d t sector rates (t.upper base) rows ≡ []
        → compute d f to_float redis t sector rates base up days now closes rows store
          ≡ (empty_response d f to_float (t.upper base), store)
    unfolding compute
    compute-empty redis t sector rates base up days now closes rows store h =
        ap
          (λ positions.
            compute_for d f to_float redis t rates (t.upper base) up days now closes positions
              store)
          h
