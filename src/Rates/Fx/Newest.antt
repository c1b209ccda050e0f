-- ===== src/Rates/Fx/Newest.antt =====
-- Which rate a lookup finds (backend/app/services/fx.py).
use nivara.Prelude.{
  ℕ, ◌+◌, ◌≤◌, String, true, false, ◌&&◌, Option, none, some, List, [], ◌∷◌, ◌≡◌, refl, str_eq,
  eq_iff, eq_refl, ap, ltb, arith, if◌then◌else◌, ◌⊎◌, Option-cases, inl, inr,
}
use nivara.Decimals.{Decimals}
use nivara.Rates.Fx.{
  FxRate, is_candidate, not_after, newest, rate_of, lookup_rate, get_rate, upsert_row,
}
use nivara.Portfolio.Symbols.{Texts}
use nivara.Rates.Fx.Table.{rates}

module _ (d : Decimals) where
  open d use {Num}

  -- How many rates of the pair, not after the limit, are later than a time.
  abbrev pub later : String → String → Option ℕ → ℕ → List (FxRate d) → ℕ
  later base quote as_of t [] = 0
  later base quote as_of t (row ∷ rows) =
      (if is_candidate d base quote as_of row && ltb t row.as_of then 1 else 0)
      + later base quote as_of t rows

  abbrev pub candidates : String → String → Option ℕ → List (FxRate d) → ℕ
  candidates base quote as_of [] = 0
  candidates base quote as_of (row ∷ rows) =
      (if is_candidate d base quote as_of row then 1 else 0) + candidates base quote as_of rows

  later_mono :
      (base quote : String) (as_of : Option ℕ) (t u : ℕ) (rows : List (FxRate d))
      → t ≤ u
      → later base quote as_of u rows ≤ later base quote as_of t rows
  later_mono base quote as_of t u [] h = omega arith
  later_mono base quote as_of t u (row ∷ rows) h =
      ground (arith, later_mono base quote as_of t u rows h)

  later-candidates :
      (base quote : String) (as_of : Option ℕ) (t : ℕ) (rows : List (FxRate d))
      → later base quote as_of t rows ≤ candidates base quote as_of rows
  later-candidates base quote as_of t [] = omega arith
  later-candidates base quote as_of t (row ∷ rows) =
      ground (arith, later-candidates base quote as_of t rows)

  newest-none :
      (base quote : String) (as_of : Option ℕ) (rows : List (FxRate d))
      → newest d base quote as_of rows ≡ none
      → candidates base quote as_of rows ≡ 0
  unfolding newest
  newest-none base quote as_of [] h = refl
  newest-none base quote as_of (row ∷ rows) h = ground (arith, newest-none base quote as_of rows)

  newest-candidate :
      (base quote : String) (as_of : Option ℕ) (rows : List (FxRate d)) (best : FxRate d)
      → newest d base quote as_of rows ≡ some best
      → (is_candidate d base quote as_of best ≡ true) × (later base quote as_of best.as_of rows ≡ 0)
  unfolding newest
  newest-candidate base quote as_of [] best h = absurd (ground arith)
  newest-candidate base quote as_of (row ∷ rows) best h =
      elim (Option-cases (newest d base quote as_of rows)) [
        | inl e ↦ ground (
          arith,
          newest-none base quote as_of rows e,
          later-candidates base quote as_of row.as_of rows,
        )
        | inr (b, e) ↦ ground (
          arith,
          newest-candidate base quote as_of rows b e,
          later_mono base quote as_of b.as_of row.as_of rows,
        )
      ]

  newest-rates :
      (base quote : String) (as_of : Option ℕ) (rows : List (FxRate d)) (best : FxRate d)
      → newest d base quote as_of rows ≡ some best
      → rates d rows base quote best.as_of ≡ some best.rate
  unfolding newest
  newest-rates base quote as_of [] best h = absurd (ground arith)
  newest-rates base quote as_of (row ∷ rows) best h =
      elim (Option-cases (newest d base quote as_of rows)) [
        | inl e ↦ ground arith
        | inr (b, e) ↦ ground (
          arith,
          newest-rates base quote as_of rows b e,
          newest-candidate base quote as_of rows b e,
        )
      ]

  -- A lookup that finds a rate finds one of the table for the pair, at a time that is not after the
  -- limit, and no rate of the pair up to the limit is later.
  pub lookup_rate-newest :
      (base quote : String) (as_of : Option ℕ) (rows : List (FxRate d)) (r : Num)
      → lookup_rate d base quote as_of rows ≡ some r
      → (t : ℕ) × (rates d rows base quote t ≡ some r)
        × (not_after d as_of t ≡ true)
        × (later base quote as_of t rows ≡ 0)
  unfolding lookup_rate
  lookup_rate-newest base quote as_of rows r h =
      elim (Option-cases (newest d base quote as_of rows)) [
        | inl e ↦ absurd (ground arith)
        | inr (b, e) ↦
            let (fits, last) = newest-candidate base quote as_of rows b e in
            let found = newest-rates base quote as_of rows b e in
            (b.as_of, ground arith, ground arith, last)
      ]

  -- `get_rate` raises only where the currencies differ, no rate of the pair up to the limit is stored,
  -- and neither is one of the inverse pair, unless the newest of these is zero.
  pub get_rate-none :
      (t : Texts) (base quote : String) (as_of : Option ℕ) (rows : List (FxRate d))
      → get_rate d t base quote as_of rows ≡ none
      → (str_eq (t.upper base) (t.upper quote) ≡ false)
        × (candidates (t.upper base) (t.upper quote) as_of rows ≡ 0)
        × ((candidates (t.upper quote) (t.upper base) as_of rows ≡ 0)
            ⊎ ((r : Num) × (lookup_rate d (t.upper quote) (t.upper base) as_of rows ≡ some r)
                × (d.eq r d.zero ≡ true)))
  unfolding get_rate lookup_rate
  get_rate-none t base quote as_of rows h =
      elim (Option-cases (newest d (t.upper quote) (t.upper base) as_of rows)) [
        | inl e ↦ (
          ground arith,
          newest-none (t.upper base) (t.upper quote) as_of rows (ground arith),
          inl (newest-none (t.upper quote) (t.upper base) as_of rows e),
        )
        | inr (b, e) ↦ (
          ground arith,
          newest-none (t.upper base) (t.upper quote) as_of rows (ground arith),
          inr (b.rate, ground arith, ground arith),
        )
      ]

  later-le :
      (base quote : String) (t : ℕ) (rows : List (FxRate d)) (best : FxRate d)
      → newest d base quote none rows ≡ some best
      → later base quote none t rows ≡ 0
      → best.as_of ≤ t
  unfolding newest
  later-le base quote t [] best h p = absurd (ground arith)
  later-le base quote t (row ∷ rows) best h p =
      elim (Option-cases (newest d base quote none rows)) [
        | inl e ↦ ground arith
        | inr (b, e) ↦ ground (arith, later-le base quote t rows b e)
      ]

  newest-upsert_row :
      (base quote : String) (t : ℕ) (rate : Num) (rows : List (FxRate d))
      → later base quote none t rows ≡ 0
      → newest d base quote none (upsert_row d base quote t rate rows)
        ≡ some (record { base_currency = base; quote_currency = quote; rate = rate; as_of = t })
  unfolding newest upsert_row
  newest-upsert_row base quote t rate [] h = ground (arith, eq_refl base, eq_refl quote)
  newest-upsert_row base quote t rate (row ∷ rows) h =
      elim (Option-cases (newest d base quote none rows)) [
        | inl e ↦ ground (
          arith,
          eq_iff row.base_currency base,
          eq_iff row.quote_currency quote,
          newest-upsert_row base quote t rate rows,
        )
        | inr (b, e) ↦ ground (
          arith,
          eq_iff row.base_currency base,
          eq_iff row.quote_currency quote,
          newest-candidate base quote none rows b e,
          later-le base quote t rows b e,
          newest-upsert_row base quote t rate rows,
        )
      ]

  -- The rate that an upsert stores is what a lookup without a limit finds, where no stored rate of the
  -- pair is later.
  pub lookup_rate-upsert_row :
      (base quote : String) (t : ℕ) (rate : Num) (rows : List (FxRate d))
      → later base quote none t rows ≡ 0
      → lookup_rate d base quote none (upsert_row d base quote t rate rows) ≡ some rate
  unfolding lookup_rate
  lookup_rate-upsert_row base quote t rate rows h =
      ap (rate_of d) (newest-upsert_row base quote t rate rows h)
