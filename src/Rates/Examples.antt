-- ===== src/Rates/Examples.antt =====
-- Runs of the rate, summary and benchmark services on amounts in hundredths.
use nivara.Prelude.{
  ◌/◌, ℕ, ◌+◌, ◌*◌, String, Bool, true, ◌&&◌, Option, none, some, List, [], ◌∷◌, ◌≡◌, refl, ◌==◌,
  str_eq, eq_iff, arith, if◌then◌else◌,
}
use nivara.Decimals.{Decimals, hundredths}
use nivara.Redis.Values.{Values, memory}
use nivara.Portfolio.Symbols.{Texts}
use nivara.Rates.Fx.{
  FxRate, FxObservation, FxKey, fx, State, not_after, lookup_rate, get_rate, upsert,
  refresh_usd_inr, fx_cache_key,
}
use nivara.Rates.Fx.Table.{rates, update, rates-upsert}
use nivara.Rates.Fx.Newest.{later, lookup_rate-newest}
use nivara.Rates.Fx.Refresh.{get_rate-refresh}
use nivara.Rates.Summary.{Position, Tables, user_positions, summary}
use nivara.Rates.Summary.Totals.{is_stale_row, summary-is_stale}
use nivara.Rates.Benchmark.{BenchmarkKey, benchmark, Payload, get_return}
use nivara.Rates.Benchmark.Cache.{get_return-cached}

abbrev d : Decimals
d = hundredths

abbrev t : Texts
t = record { strip = λ s. s; upper = λ s. if str_eq s "usd" then "USD" else s; lower = λ s. s }

abbrev same_fx : FxKey → FxKey → Bool
same_fx (fx a b) (fx a' b') = str_eq a a' && str_eq b b'

same_fx_iff : (k j : FxKey) → (same_fx k j ≡ true → k ≡ j) × (k ≡ j → same_fx k j ≡ true)
same_fx_iff (fx a b) (fx a' b') = ground (arith, eq_iff a a', eq_iff b b')

abbrev redis : Values FxKey (FxObservation d)
redis = memory (FxObservation d) same_fx same_fx_iff

abbrev rate_row : String → String → ℕ → ℕ → FxRate d
rate_row base quote rate day = record {
  base_currency = base;
  quote_currency = quote;
  rate = rate;
  as_of = day * 86400;
}

abbrev table : List (FxRate d)
table = rate_row "USD" "INR" 8300 10 ∷ rate_row "USD" "INR" 8350 11 ∷ []

abbrev obs : FxObservation d
obs = record {
  base_currency = "USD";
  quote_currency = "INR";
  rate = 8400;
  as_of = 12 * 86400 + 3600;
  source = "FRED";
}

inverse_rate : get_rate d t "INR" "usd" none table ≡ some 1
unfolding get_rate lookup_rate
inverse_rate = refl

abbrev obs_again : FxObservation d
obs_again = record obs { as_of = obs.as_of + 1; rate = 8500 }

-- The column keeps tens here.
abbrev stored : ℕ → ℕ
stored rate = rate / 10 * 10

rates-upsert_example :
    (rates d (upsert d stored obs table) ≡ update d "USD" "INR" 1036800 8400 (rates d table))
    × (rates d (upsert d stored obs_again (upsert d stored obs table))
        ≡ rates d (upsert d stored obs_again table))
rates-upsert_example =
    rates-upsert d stored obs obs_again table 12 3600 3601 refl (omega arith) refl (omega arith)
      refl refl

lookup_rate-newest_example :
    (u : ℕ) × (rates d table "USD" "INR" u ≡ some 8300)
    × (not_after d (some 864000) u ≡ true)
    × (later d "USD" "INR" (some 864000) u table ≡ 0)
unfolding lookup_rate
lookup_rate-newest_example = lookup_rate-newest d "USD" "INR" (some 864000) table 8300 found
  where
    found : lookup_rate d "USD" "INR" (some 864000) table ≡ some 8300
    found = refl

abbrev s : State d t redis
s = record { rates = table; store = λ k. none }

get_rate-refresh_example :
    let s' = (refresh_usd_inr d t redis stored (some obs) true 100 s).1 in
    (get_rate d t "USD" "INR" none s'.rates ≡ some 8400)
    × (redis.get (fx_cache_key d t redis "USD" "INR") 200 s'.store ≡ some obs)
get_rate-refresh_example =
    get_rate-refresh d t redis stored obs 100 200 s refl refl refl refl (omega arith) (omega arith)

abbrev tables : Tables d
tables = record {
  positions = [];
  connections = record { id = 10; user_id = 1 } ∷ record { id = 20; user_id = 2 } ∷ [];
  instruments = record { id = 5; symbol = "AAPL"; exchange = "NASDAQ" } ∷ [];
  rates = table;
}

abbrev held : ℕ → ℕ → Position d
held conn at = record {
  broker_connection_id = conn;
  instrument_id = 5;
  quantity = 1000;
  avg_cost = 20000;
  currency = "USD";
  as_of = at;
}

abbrev holding : Tables d
holding = record tables { positions = held 10 5000 ∷ [] }

summary-is_stale_example :
    let out = summary d 50 t holding 1 "USD" 20000 in
    let stale =
      is_stale_row d 20000
        (user_positions d 1 holding.connections holding.instruments holding.positions) in
    (out.is_stale ≡ stale) × (out.confidence ≡ (if stale then 50 else d.one))
summary-is_stale_example = summary-is_stale d 50 t holding 1 "USD" 20000

abbrev same_benchmark : BenchmarkKey → BenchmarkKey → Bool
same_benchmark (benchmark a n) (benchmark b m) = str_eq a b && n == m

same_benchmark_iff :
    (k j : BenchmarkKey) → (same_benchmark k j ≡ true → k ≡ j) × (k ≡ j → same_benchmark k j ≡ true)
same_benchmark_iff (benchmark a n) (benchmark b m) = ground (arith, eq_iff a b)

abbrev returns : Values BenchmarkKey (Payload d)
returns = memory (Payload d) same_benchmark same_benchmark_iff

abbrev closes : Option (List ℕ)
closes = some (500000 ∷ 510000 ∷ 525000 ∷ [])

get_return-cached_example :
    let r = get_return d returns true "^GSPC" 30 1000 closes (λ k. none) in
    get_return d returns true "^GSPC" 30 5000 none r.1 ≡ r
get_return-cached_example =
    get_return-cached d returns "^GSPC" 30 1000 5000 closes none (λ k. none) refl (omega arith)
      (omega arith) refl
