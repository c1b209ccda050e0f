-- ===== src/Rates/Fx/Table.antt =====
-- The table of rates as a function from its key (backend/app/services/fx.py).
use mathlib.Core.Path.{fun_ext}
use nivara.Prelude.{
  ℕ, ◌+◌, ◌*◌, ◌<◌, String, ◌&&◌, Option, none, some, List, [], ◌∷◌, ◌≡◌, refl, ◌==◌, str_eq,
  eq_iff, eq_refl, arith, if◌then◌else◌,
}
use nivara.Decimals.{Decimals}
use nivara.Rates.Fx.{FxRate, FxObservation, same_key, upsert_row, upsert, day_start}

module _ (d : Decimals) where
  open d use {Num}

  -- What the table promises: a rate for each pair and time.
  abbrev pub Spec : Type 0
  Spec = String → String → ℕ → Option Num

  abbrev pub rates : List (FxRate d) → Spec
  rates [] base quote t = none
  rates (row ∷ rows) base quote t =
      if same_key d base quote t row then some row.rate else rates rows base quote t

  -- A function, changed at one key.
  abbrev pub update : String → String → ℕ → Num → Spec → Spec
  update base quote t rate f b q u =
      if str_eq base b && (str_eq quote q && t == u) then some rate else f b q u

  rates-upsert_row :
      (base quote : String) (t : ℕ) (rate : Num) (rows : List (FxRate d)) (b q : String) (u : ℕ)
      → rates (upsert_row d base quote t rate rows) b q u
        ≡ update base quote t rate (rates rows) b q u
  unfolding upsert_row
  rates-upsert_row base quote t rate [] b q u = refl
  rates-upsert_row base quote t rate (row ∷ rows) b q u = ground (
    arith,
    eq_iff row.base_currency base,
    eq_iff row.quote_currency quote,
    eq_iff base b,
    eq_iff quote q,
    eq_refl b,
    eq_refl q,
    rates-upsert_row base quote t rate rows b q u,
  )

  day_start_lem :
      (day second : ℕ) → second < 86400 → day_start d (day * 86400 + second) ≡ day * 86400
  day_start_lem day second h = grind arith

  upsert_at :
      (stored : Num → Num) (obs : FxObservation d) (rows : List (FxRate d)) (day second : ℕ)
      → obs.as_of ≡ day * 86400 + second
      → second < 86400
      → rates (upsert d stored obs rows)
        ≡ update obs.base_currency obs.quote_currency (day * 86400) (stored obs.rate) (rates rows)
  upsert_at stored obs rows day second at lt = fun_ext λ b. fun_ext λ q. fun_ext λ u.
      rw (at, day_start_lem day second lt)
        (rates-upsert_row obs.base_currency obs.quote_currency (day * 86400) (stored obs.rate) rows
          b q u)

  update_again :
      (base quote : String) (t : ℕ) (rate again : Num) (f : Spec)
      → update base quote t again (update base quote t rate f) ≡ update base quote t again f
  update_again base quote t rate again f = fun_ext λ b. fun_ext λ q. fun_ext λ u. ground arith

  -- An upsert of an observation is, as an equation between functions, the change of the rate at the
  -- observation's pair and the midnight of its day to the rate as the column stores it: every other
  -- rate stays. After a second observation of the pair on the same day, at any time of it, the table is
  -- as if the first had not been.
  pub rates-upsert :
      (stored : Num → Num) (obs again : FxObservation d) (rows : List (FxRate d))
      (day second later : ℕ)
      → obs.as_of ≡ day * 86400 + second
      → second < 86400
      → again.as_of ≡ day * 86400 + later
      → later < 86400
      → again.base_currency ≡ obs.base_currency
      → again.quote_currency ≡ obs.quote_currency
      → (rates (upsert d stored obs rows)
          ≡ update obs.base_currency obs.quote_currency
              (day * 86400)
              (stored obs.rate)
              (rates rows))
        × (rates (upsert d stored again (upsert d stored obs rows))
            ≡ rates (upsert d stored again rows))
  rates-upsert stored obs again rows day second later at lt at' lt' base quote =
      let first = upsert_at stored obs rows day second at lt in
      let alone = upsert_at stored again rows day later at' lt' in
      let both = upsert_at stored again (upsert d stored obs rows) day later at' lt' in
      let same =
        update_again obs.base_currency obs.quote_currency (day * 86400) (stored obs.rate)
          (stored again.rate) (rates rows) in
      (first, rw (both, alone, first, base, quote) same)
