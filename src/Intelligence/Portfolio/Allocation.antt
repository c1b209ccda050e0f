-- ===== src/Intelligence/Portfolio/Allocation.antt =====
-- `_sector_allocation` and `_diversification` of backend/app/intelligence/portfolio.py, and the markets
-- of the positions.
use Prim.Native.String.{compare}
use text.Mathlib.Text.{is_lt}
use nivara.Prelude.{String, Bool, false, not, ◌&&◌, ◌||◌, List, [], ◌∷◌, str_eq, if◌then◌else◌}
use nivara.Decimals.{Decimals}
use nivara.Floats.{Floats}
use nivara.Portfolio.Symbols.{Texts}
use nivara.Intelligence.Portfolio.{
  Market, other, same_market, Enriched, Weights, sort_weights, sector_weights,
}

module _ (d : Decimals) where
  open d use {Num}

  -- A dictionary by market.
  abbrev pub ByMarket : Type 0 → Type 0
  ByMarket A = List (Market × A)

  abbrev pub add_market : Market → Num → ByMarket Num → ByMarket Num
  add_market market value [] = (market, d.add d.zero value) ∷ []
  add_market market value ((m, v) ∷ rest) =
      if same_market m market
      then (m, d.add v value) ∷ rest
      else (m, v) ∷ add_market market value rest

  -- `geo_weights`, and `market_totals`.
  unfoldable pub geo_weights : ByMarket Num → List (Enriched d) → ByMarket Num
  geo_weights weights [] = weights
  geo_weights weights (p ∷ positions) =
      geo_weights (add_market p.market p.market_value_base weights) positions

  abbrev pub has_market : Market → List (Enriched d) → Bool
  has_market market [] = false
  has_market market (p ∷ positions) = same_market p.market market || has_market market positions

  abbrev pub of_market : Market → List (Enriched d) → List (Enriched d)
  of_market market [] = []
  of_market market (p ∷ positions) =
      if same_market p.market market
      then p ∷ of_market market positions
      else of_market market positions

  -- The codes of the exchanges that have no market, each once and sorted.
  abbrev pub insert_code : String → List String → List String
  insert_code code [] = code ∷ []
  insert_code code (c ∷ codes) =
      if str_eq code c
      then c ∷ codes
      else if is_lt (compare code c)
      then code ∷ c ∷ codes
      else c ∷ insert_code code codes

  unfoldable pub unclassified_markets : Texts → List (Enriched d) → List String
  unclassified_markets t [] = []
  unclassified_markets t (p ∷ positions) =
      if same_market p.market other && not (str_eq p.exchange "")
      then insert_code (t.upper p.exchange) (unclassified_markets t positions)
      else unclassified_markets t positions

  module _ (f : Floats) (to_float : d.Num → f.Num) where
    abbrev pub shares : Num → Weights d → List (String × f.Num)
    shares total [] = []
    shares total ((key, value) ∷ rest) = (key, to_float (d.div value total)) ∷ shares total rest

    -- The entries of one market: the sectors of its positions, the greatest first.
    abbrev pub allocation_of : List (Enriched d) → Num → List (String × f.Num)
    allocation_of positions total = shares total (sort_weights d [] (sector_weights d [] positions))

    abbrev pub allocations : List (Enriched d) → ByMarket Num → ByMarket (List (String × f.Num))
    allocations positions [] = []
    allocations positions ((market, total) ∷ rest) =
        if d.leb total d.zero
        then allocations positions rest
        else (market, allocation_of (of_market market positions) total) ∷ allocations positions rest

    -- `_sector_allocation`
    unfoldable pub sector_allocation : List (Enriched d) → ByMarket (List (String × f.Num))
    unfolding geo_weights
    sector_allocation positions = allocations positions (geo_weights [] positions)

    abbrev pub sum_squares : Num → f.Num → Weights d → f.Num
    sum_squares total sum [] = sum
    sum_squares total sum ((key, value) ∷ rest) =
        let share = to_float (d.div value total) in
        sum_squares total (f.add sum (f.mul share share)) rest

    abbrev pub geography : Num → ByMarket Num → ByMarket f.Num
    geography total [] = []
    geography total ((market, value) ∷ rest) =
        (market, to_float (d.div value total)) ∷ geography total rest

    pub record Diversification : Type 0 where
      pub hhi : f.Num
      pub geography : ByMarket f.Num

    -- `_diversification`
    unfoldable pub diversification : Num → List (Enriched d) → Diversification
    unfolding geo_weights
    diversification total positions =
        if d.leb total d.zero then record { hhi = f.zero; geography = [] } else record {
          hhi = sum_squares total f.zero (sector_weights d [] positions);
          geography = geography total (geo_weights [] positions);
        }
