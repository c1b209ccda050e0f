-- ===== src/Intelligence/Portfolio.antt =====
-- backend/app/intelligence/portfolio.py, without the logs. A dictionary is the list of its entries in the
-- order of insertion; an empty exchange stands for a missing one.
pub mod Allocation
pub mod Benchmarks
pub mod Compute
pub mod Weights
pub mod Markets
use Prim.Native.String.{◌++◌ as append}
use nivara.Prelude.{
  ℕ, String, Bool, true, false, not, ◌&&◌, ◌||◌, Option, none, some, List, [], ◌∷◌, ◌++◌, str_eq,
  if◌then◌else◌,
}
use nivara.Decimals.{Decimals}
use nivara.Floats.{Floats}
use nivara.Portfolio.Symbols.{Instrument, Texts}
use nivara.Rates.Fx.{FxRate, get_rate}
use nivara.Rates.Summary.{Joined}

pub data Market : Type 0 where
  india us other : Market

abbrev pub same_market : Market → Market → Bool
same_market india india = true
same_market us us = true
same_market other other = true
same_market _ _ = false

-- `_IN_EXCHANGES` and `_US_EXCHANGES`
abbrev pub is_in_exchange : String → Bool
is_in_exchange code = str_eq code "NSE" || str_eq code "BSE"

abbrev pub is_us_exchange : String → Bool
is_us_exchange code =
    str_eq code "NASDAQ"
    || (str_eq code "NYSE" || (str_eq code "AMEX" || (str_eq code "ARCA" || str_eq code "BATS")))

-- `_market_for_exchange`
unfoldable pub market_for_exchange : Texts → String → Market
market_for_exchange t exchange =
    if str_eq exchange ""
    then other
    else if is_in_exchange (t.upper exchange)
    then india
    else if is_us_exchange (t.upper exchange)
    then us
    else other

-- `getattr(instrument, "sector", None) or "Unknown"`
abbrev pub sector_or : Option String → String
sector_or none = "Unknown"
sector_or (some String.[]) = "Unknown"
sector_or (some (String.◌∷◌ c s)) = String.◌∷◌ c s

abbrev pub disclaimer_text : String
disclaimer_text = "For informational purposes only. Not investment advice."

module _ (d : Decimals) where
  open d use {Num}

  pub record Enriched : Type 0 where
    pub instrument_id : ℕ
    pub symbol : String
    pub exchange : String
    pub market : Market
    pub sector : String
    pub native_currency : String
    pub market_value_native : Num
    pub market_value_base : Num

  abbrev pub enriched_of : Texts → (Instrument → Option String) → Joined d → Num → Enriched
  enriched_of t sector row fx_rate =
      let mv_native = d.mul row.position.quantity row.position.avg_cost in
      record {
        instrument_id = row.instrument.id;
        symbol = row.instrument.symbol;
        exchange = row.instrument.exchange;
        market = market_for_exchange t row.instrument.exchange;
        sector = sector_or (sector row.instrument);
        native_currency = row.position.currency;
        market_value_native = mv_native;
        market_value_base = d.mul mv_native fx_rate;
      }

  abbrev pub kept : Texts → (Instrument → Option String) → Joined d → Option Num → List Enriched
  kept t sector row none = []
  kept t sector row (some fx_rate) = enriched_of t sector row fx_rate ∷ []

  -- `_load_positions`, on the joined rows: without closed positions and those that have no rate.
  unfoldable pub load_positions :
      Texts
      → (Instrument → Option String)
      → List (FxRate d)
      → String
      → List (Joined d)
      → List Enriched
  unfolding market_for_exchange
  load_positions t sector rates base_currency [] = []
  load_positions t sector rates base_currency (row ∷ rows) =
      let rest = load_positions t sector rates base_currency rows in
      if d.eq row.position.quantity d.zero
      then rest
      else kept t sector row (get_rate d t row.position.currency base_currency none rates) ++ rest

  abbrev pub Weights : Type 0
  Weights = List (String × Num)

  abbrev pub get_weight : String → Weights → Option Num
  get_weight key [] = none
  get_weight key ((k, v) ∷ rest) = if str_eq k key then some v else get_weight key rest

  abbrev pub or_zero : Option Num → Num
  or_zero none = d.zero
  or_zero (some v) = v

  -- `weights[key] = weights.get(key, Decimal("0")) + value`
  abbrev pub add_weight : String → Num → Weights → Weights
  add_weight key value [] = (key, d.add d.zero value) ∷ []
  add_weight key value ((k, v) ∷ rest) =
      if str_eq k key then (k, d.add v value) ∷ rest else (k, v) ∷ add_weight key value rest

  -- The loop that fills `sector_weights`.
  unfoldable pub sector_weights : Weights → List Enriched → Weights
  sector_weights weights [] = weights
  sector_weights weights (p ∷ positions) =
      sector_weights (add_weight p.sector p.market_value_base weights) positions

  abbrev pub insert_weight : String × Num → Weights → Weights
  insert_weight (k, v) [] = (k, v) ∷ []
  insert_weight (k, v) ((j, w) ∷ rest) =
      if d.leb v w then (j, w) ∷ insert_weight (k, v) rest else (k, v) ∷ (j, w) ∷ rest

  -- `sorted(weights.items(), key=lambda kv: -kv[1])`, which is stable.
  abbrev pub sort_weights : Weights → Weights → Weights
  sort_weights sorted [] = sorted
  sort_weights sorted (entry ∷ rest) = sort_weights (insert_weight entry sorted) rest

  unfoldable pub total_base : Num → List Enriched → Num
  total_base total [] = total
  total_base total (p ∷ positions) = total_base (d.add total p.market_value_base) positions

  module _ (f : Floats) (to_float : d.Num → f.Num) where
    pub record RebalancingSuggestion : Type 0 where
      pub kind : String
      pub sector : String
      pub current_pct : f.Num
      pub suggestion : String
      pub disclaimer : String

    -- `SECTOR_CONCENTRATION_THRESHOLD`
    abbrev pub sector_concentration_threshold : f.Num
    sector_concentration_threshold = f.ratio 40 100

    abbrev pub suggestion_of : String → f.Num → RebalancingSuggestion
    suggestion_of sector pct = record {
      kind = "sector_concentration";
      sector = sector;
      current_pct = pct;
      suggestion = append "Consider reducing exposure to " (append sector ".");
      disclaimer = disclaimer_text;
    }

    abbrev pub is_concentrated : Num → Num → Bool
    is_concentrated total value =
        f.ltb sector_concentration_threshold (to_float (d.div value total))

    unfoldable pub suggest : Num → Weights → List RebalancingSuggestion
    suggest total [] = []
    suggest total ((sector, value) ∷ rest) =
        if is_concentrated total value
        then suggestion_of sector (to_float (d.div value total)) ∷ suggest total rest
        else suggest total rest

    -- `_rebalancing_suggestions`
    unfoldable pub rebalancing_suggestions : Num → List Enriched → List RebalancingSuggestion
    unfolding sector_weights suggest
    rebalancing_suggestions total positions =
        if d.leb total d.zero
        then []
        else suggest total (sort_weights [] (sector_weights [] positions))
