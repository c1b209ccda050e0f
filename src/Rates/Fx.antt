-- ===== src/Rates/Fx.antt =====
-- backend/app/services/fx.py. A time is a number of seconds; a pair of currencies and a time is the key
-- of a rate. `stored` is the rounding of the column, NUMERIC(20, 10), to its ten decimals; a rate of ten
-- digits or less in front of the point fits into it.
pub mod Table
pub mod Newest
pub mod Refresh
use nivara.Prelude.{
  ℕ, ◌*◌, ◌/◌, String, Bool, true, false, not, ◌&&◌, Option, none, some, List, [], ◌∷◌, leb, ltb,
  ◌==◌, str_eq, if◌then◌else◌,
}
use nivara.Decimals.{Decimals}
use nivara.Redis.Values.{Values}
use nivara.Portfolio.Symbols.{Texts}

-- `fx:{base}_{quote}`
pub data FxKey : Type 0 where
  fx : String → String → FxKey

abbrev pub fx_cache_ttl_seconds : ℕ
fx_cache_ttl_seconds = 24 * 60 * 60

module _ (d : Decimals) where
  open d use {Num}

  pub record FxRate : Type 0 where
    pub base_currency : String
    pub quote_currency : String
    pub rate : Num
    pub as_of : ℕ

  pub record FxObservation : Type 0 where
    pub base_currency : String
    pub quote_currency : String
    pub rate : Num
    pub as_of : ℕ
    pub source : String

  abbrev pub not_after : Option ℕ → ℕ → Bool
  not_after none t = true
  not_after (some limit) t = leb t limit

  -- The WHERE clauses of `_lookup`, with and without `as_of`.
  abbrev pub is_candidate : String → String → Option ℕ → FxRate → Bool
  is_candidate base quote as_of row =
      str_eq row.base_currency base
      && (str_eq row.quote_currency quote && not_after as_of row.as_of)

  abbrev pub newer : FxRate → Option FxRate → Option FxRate
  newer row none = some row
  newer row (some best) = if ltb row.as_of best.as_of then some best else some row

  -- `order_by(FxRate.as_of.desc()).limit(1)`
  unfoldable pub newest : String → String → Option ℕ → List FxRate → Option FxRate
  newest base quote as_of [] = none
  newest base quote as_of (row ∷ rows) =
      let best = newest base quote as_of rows in
      if is_candidate base quote as_of row then newer row best else best

  abbrev pub rate_of : Option FxRate → Option Num
  rate_of none = none
  rate_of (some row) = some row.rate

  -- `_lookup`
  unfoldable pub lookup_rate : String → String → Option ℕ → List FxRate → Option Num
  unfolding newest
  lookup_rate base quote as_of rows = rate_of (newest base quote as_of rows)

  abbrev pub inverse_of : Option Num → Option Num
  inverse_of none = none
  inverse_of (some inverse) = if d.eq inverse d.zero then none else some (d.div d.one inverse)

  abbrev pub direct_or : Option Num → Option Num → Option Num
  direct_or none inverse = inverse_of inverse
  direct_or (some rate) inverse = some rate

  -- `get_rate`; `none` is `FxRateNotFoundError`.
  unfoldable pub get_rate : Texts → String → String → Option ℕ → List FxRate → Option Num
  get_rate t base quote as_of rows =
      let base_u = t.upper base in
      let quote_u = t.upper quote in
      if str_eq base_u quote_u
      then some d.one
      else direct_or (lookup_rate base_u quote_u as_of rows) (lookup_rate quote_u base_u as_of rows)

  -- `convert`: the amount and the rate.
  unfoldable pub convert :
      Texts → Num → String → String → Option ℕ → List FxRate → Option (Num × Num)
  convert t amount from_currency to_currency as_of rows =
      elim (get_rate t from_currency to_currency as_of rows) [
        | none ↦ none
        | some rate ↦ some (d.mul amount rate, rate)
      ]

  -- Midnight of the observation's day.
  abbrev pub day_start : ℕ → ℕ
  day_start t = t / 86400 * 86400

  abbrev pub same_key : String → String → ℕ → FxRate → Bool
  same_key base quote as_of row =
      str_eq row.base_currency base && (str_eq row.quote_currency quote && row.as_of == as_of)

  -- Insert, or update on the unique constraint.
  unfoldable pub upsert_row : String → String → ℕ → Num → List FxRate → List FxRate
  upsert_row base quote as_of rate [] =
      record { base_currency = base; quote_currency = quote; rate = rate; as_of = as_of } ∷ []
  upsert_row base quote as_of rate (row ∷ rows) =
      if same_key base quote as_of row
      then record row { rate = rate } ∷ rows
      else row ∷ upsert_row base quote as_of rate rows

  -- `_upsert`
  abbrev pub upsert : (Num → Num) → FxObservation → List FxRate → List FxRate
  upsert stored obs rows =
      upsert_row obs.base_currency obs.quote_currency (day_start obs.as_of) (stored obs.rate) rows

  module _ (t : Texts) (redis : Values FxKey FxObservation) where
    pub record State : Type 0 where
      pub rates : List FxRate
      pub store : redis.Store

    abbrev pub fx_cache_key : String → String → FxKey
    fx_cache_key base quote = fx (t.upper base) (t.upper quote)

    -- `_cache`; a cache that is down changes nothing.
    abbrev pub cache : Bool → ℕ → FxObservation → redis.Store → redis.Store
    cache up now obs store =
        if up
        then redis.set (fx_cache_key obs.base_currency obs.quote_currency) obs
            (some fx_cache_ttl_seconds) now store
        else store

    -- `refresh_usd_inr` on what the clients answered; `none` is `FxFetchError`.
    unfoldable pub refresh_usd_inr :
        (Num → Num) → Option FxObservation → Bool → ℕ → State → Option FxObservation × State
    refresh_usd_inr stored none up now s = (none, s)
    refresh_usd_inr stored (some obs) up now s =
        (some obs, record { rates = upsert stored obs s.rates; store = cache up now obs s.store })
