-- ===== src/Rates/Fx/Refresh.antt =====
-- A refresh and the reads after it (backend/app/services/fx.py).
use nivara.Prelude.{ℕ, ◌+◌, ◌≤◌, ◌<◌, true, false, Option, none, some, ◌≡◌, refl, str_eq, arith}
use nivara.Decimals.{Decimals}
use nivara.Redis.Values.{Values}
use nivara.Portfolio.Symbols.{Texts}
use nivara.Rates.Fx.{
  FxObservation, FxKey, State, day_start, get_rate, refresh_usd_inr, fx_cache_key,
  fx_cache_ttl_seconds,
}
use nivara.Rates.Fx.Newest.{later, lookup_rate-upsert_row}

module _ (d : Decimals) (t : Texts) (redis : Values FxKey (FxObservation d)) where
  -- A refresh that the clients answer is read back: `get_rate` on the observation's currencies, with
  -- no time, finds its rate, as the column rounds it, if no stored rate of the pair is later than its day, and the cache holds
  -- the observation until 24 hours have passed. The currencies are in upper case and differ.
  pub get_rate-refresh :
      (stored : d.Num → d.Num) (obs : FxObservation d) (now at : ℕ) (s : State d t redis)
      → t.upper obs.base_currency ≡ obs.base_currency
      → t.upper obs.quote_currency ≡ obs.quote_currency
      → str_eq obs.base_currency obs.quote_currency ≡ false
      → later d obs.base_currency obs.quote_currency none (day_start d obs.as_of) s.rates ≡ 0
      → now ≤ at
      → at < now + fx_cache_ttl_seconds
      → let s' = (refresh_usd_inr d t redis stored (some obs) true now s).1 in
        (get_rate d t obs.base_currency obs.quote_currency none s'.rates ≡ some (stored obs.rate))
        × (redis.get (fx_cache_key d t redis obs.base_currency obs.quote_currency) at s'.store
            ≡ some obs)
  unfolding refresh_usd_inr get_rate
  get_rate-refresh stored obs now at s hb hq ne last le lt = (
    ground (
      arith,
      lookup_rate-upsert_row d obs.base_currency obs.quote_currency (day_start d obs.as_of)
          (stored obs.rate) s.rates last,
    ),
    ground (
      arith,
      redis.get-set (fx_cache_key d t redis obs.base_currency obs.quote_currency)
          (fx_cache_key d t redis obs.base_currency obs.quote_currency) obs
          (some fx_cache_ttl_seconds) now at s.store le,
      redis.same_iff (fx_cache_key d t redis obs.base_currency obs.quote_currency)
          (fx_cache_key d t redis obs.base_currency obs.quote_currency),
    ),
  )

  -- A cache that is down does not fail a refresh, which stores the same rates as with the cache; a
  -- failed fetch changes nothing.
  pub refresh-cache_down :
      (stored : d.Num → d.Num) (o : Option (FxObservation d)) (now : ℕ) (s : State d t redis)
      → let down = refresh_usd_inr d t redis stored o false now s in
        let up = refresh_usd_inr d t redis stored o true now s in
        (down.0 ≡ up.0) × (down.1.rates ≡ up.1.rates) × (down.1.store ≡ s.store)
  unfolding refresh_usd_inr
  refresh-cache_down stored none now s = (refl, refl, refl)
  refresh-cache_down stored (some obs) now s = (refl, refl, refl)
