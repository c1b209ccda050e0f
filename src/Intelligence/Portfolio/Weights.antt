-- ===== src/Intelligence/Portfolio/Weights.antt =====
-- Which sectors a rebalancing names (backend/app/intelligence/portfolio.py).
use nivara.Prelude.{
  String, Bool, false, not, ◌&&◌, ◌||◌, Option, none, some, List, [], ◌∷◌, ◌≡◌, refl, str_eq,
  eq_iff, eq_refl, arith, if◌then◌else◌, Bool-cases, inl, inr, ◌∙◌, ap,
}
use nivara.Decimals.{Decimals}
use nivara.Floats.{Floats}
use nivara.Intelligence.Portfolio.{
  Enriched, Weights, get_weight, or_zero, add_weight, sector_weights, insert_weight, sort_weights,
  RebalancingSuggestion, is_concentrated, suggest, rebalancing_suggestions,
}

module _ (d : Decimals) where
  open d use {Num}

  -- The sum of the values of a sector's positions, in their order; none where it has no position.
  abbrev pub value_from : Option Num → String → List (Enriched d) → Option Num
  value_from acc sector [] = acc
  value_from acc sector (p ∷ positions) =
      value_from
        (if str_eq p.sector sector then some (d.add (or_zero d acc) p.market_value_base) else acc)
        sector positions

  get_weight-add_weight :
      (s key : String) (value : Num) (w : Weights d)
      → get_weight d s (add_weight d key value w) ≡ (
          if str_eq key s
          then some (d.add (or_zero d (get_weight d s w)) value)
          else get_weight d s w)
  get_weight-add_weight s key value [] = refl
  get_weight-add_weight s key value ((k, v) ∷ rest) =
      ground (arith, eq_iff k key, eq_iff key s, eq_refl s, get_weight-add_weight s key value rest)

  get_weight-sector_weights :
      (s : String) (w : Weights d) (positions : List (Enriched d))
      → get_weight d s (sector_weights d w positions) ≡ value_from (get_weight d s w) s positions
  unfolding sector_weights
  get_weight-sector_weights s w [] = refl
  get_weight-sector_weights s w (p ∷ positions) =
      get_weight-sector_weights s (add_weight d p.sector p.market_value_base w) positions
      ∙ ap (λ acc. value_from acc s positions)
          (get_weight-add_weight s p.sector p.market_value_base w)

  -- Each key stands once.
  abbrev IsUnique : Weights d → Type 0
  IsUnique [] = Unit
  IsUnique ((k, v) ∷ rest) = (get_weight d k rest ≡ none) × IsUnique rest

  add_weight-IsUnique :
      (key : String) (value : Num) (w : Weights d)
      → IsUnique w
      → IsUnique (add_weight d key value w)
  add_weight-IsUnique key value [] u = (refl, tt)
  add_weight-IsUnique key value ((k, v) ∷ rest) u = elim (Bool-cases (str_eq k key)) [
    | inl e ↦ rw e u
    | inr e ↦ rw e (
      ground (arith, get_weight-add_weight k key value rest, eq_iff key k, eq_refl k),
      add_weight-IsUnique key value rest u.1,
    )
  ]

  sector_weights-IsUnique :
      (w : Weights d) (positions : List (Enriched d))
      → IsUnique w
      → IsUnique (sector_weights d w positions)
  unfolding sector_weights
  sector_weights-IsUnique w [] u = u
  sector_weights-IsUnique w (p ∷ positions) u =
      sector_weights-IsUnique (add_weight d p.sector p.market_value_base w) positions
        (add_weight-IsUnique p.sector p.market_value_base w u)

  module _ (f : Floats) (to_float : d.Num → f.Num) where
    abbrev pub names_sector : String → List (RebalancingSuggestion d f to_float) → Bool
    names_sector s [] = false
    names_sector s (x ∷ xs) = str_eq x.sector s || names_sector s xs

    abbrev any_concentrated : Num → String → Weights d → Bool
    any_concentrated total s [] = false
    any_concentrated total s ((k, v) ∷ rest) =
        str_eq k s && is_concentrated d f to_float total v || any_concentrated total s rest

    abbrev pub concentrated_value : Num → Option Num → Bool
    concentrated_value total none = false
    concentrated_value total (some v) = is_concentrated d f to_float total v

    names_sector-suggest :
        (total : Num) (s : String) (w : Weights d)
        → names_sector s (suggest d f to_float total w) ≡ any_concentrated total s w
    unfolding suggest
    names_sector-suggest total s [] = refl
    names_sector-suggest total s ((k, v) ∷ rest) = ground (arith, names_sector-suggest total s rest)

    any-insert_weight :
        (total : Num) (s k : String) (v : Num) (w : Weights d)
        → any_concentrated total s (insert_weight d (k, v) w)
          ≡ any_concentrated total s ((k, v) ∷ w)
    any-insert_weight total s k v [] = refl
    any-insert_weight total s k v ((j, x) ∷ rest) =
        ground (arith, any-insert_weight total s k v rest)

    any-sort_weights :
        (total : Num) (s : String) (sorted w : Weights d)
        → any_concentrated total s (sort_weights d sorted w)
          ≡ (any_concentrated total s sorted || any_concentrated total s w)
    any-sort_weights total s sorted [] = ground arith
    any-sort_weights total s sorted ((k, v) ∷ rest) = ground (
      arith,
      any-sort_weights total s (insert_weight d (k, v) sorted) rest,
      any-insert_weight total s k v sorted,
    )

    any-IsUnique :
        (total : Num) (s : String) (w : Weights d)
        → IsUnique w
        → any_concentrated total s w ≡ concentrated_value total (get_weight d s w)
    any-IsUnique total s [] u = refl
    any-IsUnique total s ((k, v) ∷ rest) u =
        ground (arith, eq_iff k s, any-IsUnique total s rest u.1)

    -- A rebalancing names a sector exactly where the total is positive and the sector's positions make
    -- up more than 40 percent of it; the sectors are not mixed up by the sort.
    pub rebalancing-names :
        (total : Num) (s : String) (positions : List (Enriched d))
        → names_sector s (rebalancing_suggestions d f to_float total positions)
          ≡ (not (d.leb total d.zero) && concentrated_value total (value_from none s positions))
    unfolding rebalancing_suggestions
    rebalancing-names total s positions =
        let w = sector_weights d [] positions in
        ground (
          arith,
          names_sector-suggest total s (sort_weights d [] w),
          any-sort_weights total s [] w,
          any-IsUnique total s w (sector_weights-IsUnique [] positions tt),
          get_weight-sector_weights s [] positions,
        )
