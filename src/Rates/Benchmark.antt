-- ===== src/Rates/Benchmark.antt =====
-- backend/app/services/benchmark.py. The closes that Yahoo returns for a symbol are a list without
-- missing values, or none where the library raises or has no rows.
pub mod Cache
use nivara.Prelude.{
  ℕ, ◌+◌, ◌-◌, ◌*◌, String, Bool, true, false, Option, none, some, List, [], ◌∷◌, str_eq,
  if◌then◌else◌,
}
use nivara.Decimals.{Decimals}
use nivara.Redis.Values.{Values}
use nivara.Portfolio.Symbols.{Texts}
use nivara.Rates.Fx.{FxRate, get_rate}

abbrev pub nifty_symbol : String
nifty_symbol = "^NSEI"

abbrev pub sp500_symbol : String
sp500_symbol = "^GSPC"

abbrev pub benchmark_cache_ttl_seconds : ℕ
benchmark_cache_ttl_seconds = 24 * 60 * 60

-- `benchmark:{symbol}:{period_days}d`
pub data BenchmarkKey : Type 0 where
  benchmark : String → ℕ → BenchmarkKey

-- `_symbol_currency`
unfoldable pub symbol_currency : String → String
symbol_currency symbol =
    if str_eq symbol nifty_symbol
    then "INR"
    else if str_eq symbol sp500_symbol
    then "USD"
    else "USD"

-- `benchmark_for_venue`, and the native currency of the venue's index.
unfoldable pub benchmark_for_venue : Texts → String → Option (String × String)
benchmark_for_venue t venue =
    let mic = t.upper venue in
    if str_eq mic "XNSE"
    then some (nifty_symbol, "INR")
    else if str_eq mic "XBOM"
    then some (nifty_symbol, "INR")
    else if str_eq mic "XNAS"
    then some (sp500_symbol, "USD")
    else if str_eq mic "XNYS"
    then some (sp500_symbol, "USD")
    else none

module _ (d : Decimals) where
  open d use {Num}

  -- `period_days` is one or more, as the schema asks; the code raises a `ValidationError` for less.
  pub record BenchmarkReturn : Type 0 where
    pub symbol : String
    pub currency : String
    pub period_days : ℕ
    pub period_start : ℕ
    pub period_end : ℕ
    pub close_start : Option Num
    pub close_end : Option Num
    pub total_return : Num
    pub stale : Bool

  -- A cached text: one that validates, or not.
  pub data Payload : Type 0 where
    valid : BenchmarkReturn → Payload
    invalid : Payload

  abbrev pub last_of : Num → List Num → Num
  last_of x [] = x
  last_of x (y ∷ ys) = last_of y ys

  -- `_fetch_endpoints_sync`: the first and the last close; `none` where it raises.
  abbrev pub endpoints : Option (List Num) → Option (Num × Num)
  endpoints none = none
  endpoints (some []) = none
  endpoints (some (x ∷ [])) = none
  endpoints (some (x ∷ y ∷ rest)) = some (x, last_of y rest)

  unfoldable pub stale_return : String → ℕ → ℕ → BenchmarkReturn
  unfolding symbol_currency
  stale_return symbol period_days now = record {
    symbol = symbol;
    currency = symbol_currency symbol;
    period_days = period_days;
    period_start = now - period_days * 86400;
    period_end = now;
    close_start = none;
    close_end = none;
    total_return = d.zero;
    stale = true;
  }

  abbrev pub total_return_of : Num → Num → Num
  total_return_of close_start close_end =
      if d.leb close_start d.zero then d.zero else d.sub (d.div close_end close_start) d.one

  unfoldable pub fresh_return : String → ℕ → ℕ → Num × Num → BenchmarkReturn
  unfolding symbol_currency
  fresh_return symbol period_days now (close_start, close_end) = record {
    symbol = symbol;
    currency = symbol_currency symbol;
    period_days = period_days;
    period_start = now - period_days * 86400;
    period_end = now;
    close_start = some close_start;
    close_end = some close_end;
    total_return = total_return_of close_start close_end;
    stale = false;
  }

  -- `benchmark_return_in_base`; `none` is the exception of a missing rate.
  abbrev pub in_base_with : Num → Num → Option Num → Option Num → Option Num
  in_base_with close_start close_end none fx_start = none
  in_base_with close_start close_end (some fx_end) none = none
  in_base_with close_start close_end (some fx_end) (some fx_start) =
      let start_base = d.mul close_start fx_start in
      let end_base = d.mul close_end fx_end in
      if d.leb start_base d.zero
      then some d.zero
      else some (d.sub (d.div end_base start_base) d.one)

  abbrev pub converted :
      Texts → List (FxRate d) → String → BenchmarkReturn → Option Num → Option Num → Option Num
  converted t rates base_currency obs none close_end = some obs.total_return
  converted t rates base_currency obs (some close_start) none = some obs.total_return
  converted t rates base_currency obs (some close_start) (some close_end) =
      let native = t.upper obs.currency in
      let base = t.upper base_currency in
      if str_eq native base
      then some obs.total_return
      else in_base_with close_start close_end (get_rate d t native base (some obs.period_end) rates)
          (get_rate d t native base (some obs.period_start) rates)

  unfoldable pub benchmark_return_in_base :
      Texts → List (FxRate d) → String → BenchmarkReturn → Option Num
  benchmark_return_in_base t rates base_currency obs =
      if obs.stale
      then some obs.total_return
      else converted t rates base_currency obs obs.close_start obs.close_end

  module _ (redis : Values BenchmarkKey Payload) where
    abbrev pub valid_payload : Option Payload → Option BenchmarkReturn
    valid_payload none = none
    valid_payload (some invalid) = none
    valid_payload (some (valid obs)) = some obs

    -- `_read_cache`; `up` tells whether the cache answers.
    abbrev pub read_cache : Bool → BenchmarkKey → ℕ → redis.Store → Option BenchmarkReturn
    read_cache false key now store = none
    read_cache true key now store = valid_payload (redis.get key now store)

    -- `_write_cache`
    abbrev pub write_cache : Bool → BenchmarkKey → BenchmarkReturn → ℕ → redis.Store → redis.Store
    write_cache false key obs now store = store
    write_cache true key obs now store =
        redis.set key (valid obs) (some benchmark_cache_ttl_seconds) now store

    abbrev pub fetched :
        Bool → String → ℕ → ℕ → Option (Num × Num) → redis.Store → BenchmarkReturn × redis.Store
    fetched up symbol period_days now none store = (stale_return symbol period_days now, store)
    fetched up symbol period_days now (some closes) store =
        let obs = fresh_return symbol period_days now closes in
        (obs, write_cache up (benchmark symbol period_days) obs now store)

    -- `get_return`
    unfoldable pub get_return :
        Bool → String → ℕ → ℕ → Option (List Num) → redis.Store → BenchmarkReturn × redis.Store
    unfolding stale_return fresh_return
    get_return up symbol period_days now closes store =
        elim (read_cache up (benchmark symbol period_days) now store) [
          | some cached ↦ (cached, store)
          | none ↦ fetched up symbol period_days now (endpoints closes) store
        ]

    abbrev pub add_weighted : Num → Num → Option Num → Option Num
    add_weighted total weight none = none
    add_weighted total weight (some base_return) = some (d.add total (d.mul weight base_return))

    -- `blended_portfolio_return`, from the total so far; `none` is the exception of a missing rate.
    unfoldable pub blend :
        Texts
        → List (FxRate d)
        → String
        → Bool
        → ℕ
        → ℕ
        → (String → Option (List Num))
        → Option Num
        → List (String × Num)
        → redis.Store
        → Option Num × redis.Store
    unfolding get_return benchmark_return_in_base benchmark_for_venue
    blend t rates base up period_days now closes none weights store = (none, store)
    blend t rates base up period_days now closes (some total) [] store = (some total, store)
    blend t rates base up period_days now closes (some total) ((venue, weight) ∷ weights) store =
        elim (benchmark_for_venue t venue) [
          | none ↦ blend t rates base up period_days now closes (some total) weights store
          | some (symbol, currency) ↦
              let (obs, store') = get_return up symbol period_days now (closes symbol) store in
              blend t rates base up period_days now closes
                (add_weighted total weight (benchmark_return_in_base t rates base obs)) weights
                store'
        ]
