-- ===== src/Intelligence/Staleness/Levels.antt =====
-- The bands in the order of the age, and the bounds of a reduced confidence
-- (backend/app/intelligence/staleness.py).
use nivara.Prelude.{ℕ, ◌≤◌, true, ◌≡◌, refl, arith}
use nivara.Floats.{Floats, IsOrdered}
use nivara.Intelligence.Staleness.{
  StalenessLevel, fresh, aging, stale, suppressed, Thresholds, level_of, within,
  apply_confidence_reduction,
}

abbrev pub rank : StalenessLevel → ℕ
rank fresh = 0
rank aging = 1
rank stale = 2
rank suppressed = 3

module _ (f : Floats) (o : IsOrdered f) where
  open f use {Num}

  -- An older recommendation is never in a fresher band, whatever the thresholds are.
  pub level_of_mono :
      (s : Thresholds f) (hours later : Num)
      → f.leb hours later ≡ true
      → rank (level_of f s hours) ≤ rank (level_of f s later)
  level_of_mono s hours later h = ground (
    arith,
    o.leb-ltb hours later f.zero h,
    o.leb-ltb hours later s.fresh_hours h,
    o.leb-ltb hours later s.aging_hours h,
    o.leb-ltb hours later s.stale_hours h,
  )

  abbrev pub hundred : Num
  hundred = f.ratio 10000 100

  pub zero-leb-hundred : f.leb f.zero hundred ≡ true
  zero-leb-hundred = o.leb_of_ltb f.zero hundred (o.percent_pos 10000 (omega arith))

  within_bounds :
      (a b : Num)
      → f.finite a ≡ true
      → f.finite b ≡ true
      → (f.leb f.zero (within f (f.sub a b)) ≡ true) × (f.leb (within f (f.sub a b)) hundred ≡ true)
  within_bounds a b ha hb = ground (
    arith,
    zero-leb-hundred,
    o.leb_refl f.zero o.zero_finite,
    o.leb_refl hundred (o.ratio_finite 10000 99),
    o.sub_finite a b f.zero ha hb o.zero_finite,
    o.sub_finite a b hundred ha hb (o.ratio_finite 10000 99),
  )

  -- A finite confidence stays between 0 and 100 in every band, and is 0 where the recommendation is
  -- suppressed.
  pub reduction_bounds :
      (confidence : Num) (level : StalenessLevel)
      → f.finite confidence ≡ true
      → let reduced = apply_confidence_reduction f confidence level in
        (f.leb f.zero reduced ≡ true)
        × (f.leb reduced hundred ≡ true)
        × (apply_confidence_reduction f confidence suppressed ≡ f.zero)
  unfolding apply_confidence_reduction
  reduction_bounds confidence fresh h =
      let b = within_bounds confidence f.zero h o.zero_finite in (b.0, b.1, refl)
  reduction_bounds confidence aging h =
      let b = within_bounds confidence (f.ratio 500 100) h (o.ratio_finite 500 99) in
      (b.0, b.1, refl)
  reduction_bounds confidence stale h =
      let b = within_bounds confidence (f.ratio 1500 100) h (o.ratio_finite 1500 99) in
      (b.0, b.1, refl)
  reduction_bounds confidence suppressed h =
      (o.leb_refl f.zero o.zero_finite, zero-leb-hundred, refl)
