-- ===== src/Rates/Summary.antt =====
-- `class PortfolioSummaryService` of backend/app/services/portfolio_summary.py. A position refers to
-- one connection and one instrument by their ids; times are in seconds, with a time zone.
pub mod Totals
use nivara.Prelude.{
  ℕ, ◌+◌, ◌-◌, ◌*◌, String, Bool, true, false, Option, none, some, List, [], ◌∷◌, ◌++◌, ltb, ◌==◌,
  if◌then◌else◌,
}
use nivara.Decimals.{Decimals}
use nivara.Portfolio.Symbols.{Instrument, Texts, get_instrument}
use nivara.Rates.Fx.{FxRate, get_rate}

abbrev pub stale_threshold : ℕ
stale_threshold = 2 * 3600

pub record Connection : Type 0 where
  pub id : ℕ
  pub user_id : ℕ

module _ (d : Decimals) where
  open d use {Num}

  pub record Position : Type 0 where
    pub broker_connection_id : ℕ
    pub instrument_id : ℕ
    pub quantity : Num
    pub avg_cost : Num
    pub currency : String
    pub as_of : ℕ

  pub record PositionOut : Type 0 where
    pub instrument_id : ℕ
    pub symbol : String
    pub exchange : String
    pub quantity : Num
    pub avg_cost : Num
    pub currency : String
    pub market_value_native : Num
    pub unrealized_pl_native : Num
    pub base_currency : String
    pub market_value_base : Num
    pub unrealized_pl_base : Num
    pub fx_rate : Num
    pub as_of : ℕ

  -- The tables of one session.
  pub record Tables : Type 0 where
    pub positions : List Position
    pub connections : List Connection
    pub instruments : List Instrument
    pub rates : List (FxRate d)

  abbrev pub owns : ℕ → ℕ → List Connection → Bool
  owns user_id id [] = false
  owns user_id id (row ∷ rows) =
      if row.id == id then row.user_id == user_id else owns user_id id rows

  pub record Joined : Type 0 where
    pub position : Position
    pub instrument : Instrument

  abbrev pub joined_with : Position → Bool → Option Instrument → List Joined
  joined_with position owned none = []
  joined_with position false (some instrument) = []
  joined_with position true (some instrument) =
      record { position = position; instrument = instrument } ∷ []

  -- The positions joined with their connections and instruments, for one user.
  unfoldable pub user_positions :
      ℕ → List Connection → List Instrument → List Position → List Joined
  user_positions user_id connections instruments [] = []
  user_positions user_id connections instruments (p ∷ positions) =
      joined_with p (owns user_id p.broker_connection_id connections)
        (get_instrument p.instrument_id instruments)
      ++ user_positions user_id connections instruments positions

  abbrev pub rate_or_zero : Option Num → Num
  rate_or_zero none = d.zero
  rate_or_zero (some rate) = rate

  -- One round of the loop of `_enriched_positions`.
  unfoldable pub enrich : Texts → List (FxRate d) → String → Joined → PositionOut
  enrich t rates base_currency row =
      let p = row.position in
      let mv_native = d.mul p.quantity p.avg_cost in
      let fx_rate = rate_or_zero (get_rate d t p.currency base_currency none rates) in
      record {
        instrument_id = row.instrument.id;
        symbol = row.instrument.symbol;
        exchange = row.instrument.exchange;
        quantity = p.quantity;
        avg_cost = p.avg_cost;
        currency = p.currency;
        market_value_native = mv_native;
        unrealized_pl_native = d.zero;
        base_currency = base_currency;
        market_value_base = d.mul mv_native fx_rate;
        unrealized_pl_base = d.mul d.zero fx_rate;
        fx_rate = fx_rate;
        as_of = p.as_of;
      }

  -- `newest`, the greatest `as_of` of the rows.
  abbrev pub later_of : Option ℕ → ℕ → Option ℕ
  later_of none t = some t
  later_of (some newest) t = if ltb newest t then some t else some newest

  abbrev pub newest_from : Option ℕ → List Joined → Option ℕ
  newest_from newest [] = newest
  newest_from newest (row ∷ rows) = newest_from (later_of newest row.position.as_of) rows

  abbrev pub enrich_all : Texts → List (FxRate d) → String → List Joined → List PositionOut
  enrich_all t rates base_currency [] = []
  enrich_all t rates base_currency (row ∷ rows) =
      enrich t rates base_currency row ∷ enrich_all t rates base_currency rows

  abbrev pub stale_at : ℕ → Option ℕ → Bool
  stale_at now none = false
  stale_at now (some newest) = ltb stale_threshold (now - newest)

  abbrev pub as_of_or : ℕ → Option ℕ → ℕ
  as_of_or now none = now
  as_of_or now (some newest) = newest

  -- `_enriched_positions`: the rows, whether they are stale, and their time.
  unfoldable pub enriched_positions : Texts → Tables → ℕ → String → ℕ → List PositionOut × Bool × ℕ
  unfolding user_positions enrich
  enriched_positions t tables user_id base_currency now =
      let rows = user_positions user_id tables.connections tables.instruments tables.positions in
      let newest = newest_from none rows in
      (enrich_all t tables.rates base_currency rows, stale_at now newest, as_of_or now newest)

  pub record PortfolioSummaryOut : Type 0 where
    pub base_currency : String
    pub total_value : Num
    pub total_cost_basis : Num
    pub total_unrealized_pl : Num
    pub daily_pl : Num
    pub position_count : ℕ
    pub as_of : ℕ
    pub is_stale : Bool
    pub confidence : Num

  -- `sum(..., Decimal("0"))`
  abbrev pub sum_from : (PositionOut → Num) → Num → List PositionOut → Num
  sum_from f total [] = total
  sum_from f total (p ∷ positions) = sum_from f (d.add total (f p)) positions

  abbrev pub count_open : List PositionOut → ℕ
  count_open [] = 0
  count_open (p ∷ positions) = (if d.eq p.quantity d.zero then 0 else 1) + count_open positions

  abbrev pub cost_of : PositionOut → Num
  cost_of p = d.mul (d.mul p.avg_cost p.quantity) p.fx_rate

  -- `summary`, with `STALE_CONFIDENCE`.
  unfoldable pub summary : Num → Texts → Tables → ℕ → String → ℕ → PortfolioSummaryOut
  unfolding enriched_positions
  summary stale_confidence t tables user_id base_currency now =
      let (positions, is_stale, as_of) = enriched_positions t tables user_id base_currency now in
      record {
        base_currency = base_currency;
        total_value = sum_from (λ p. p.market_value_base) d.zero positions;
        total_cost_basis = sum_from cost_of d.zero positions;
        total_unrealized_pl = sum_from (λ p. p.unrealized_pl_base) d.zero positions;
        daily_pl = d.zero;
        position_count = count_open positions;
        as_of = as_of;
        is_stale = is_stale;
        confidence = if is_stale then stale_confidence else d.one;
      }
