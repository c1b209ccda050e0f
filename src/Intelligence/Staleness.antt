-- ===== src/Intelligence/Staleness.antt =====
-- backend/app/intelligence/staleness.py. A float literal is a number of hundredths.
pub mod Levels
use nivara.Prelude.{ℕ, Bool, true, false, if◌then◌else◌}
use nivara.Floats.{Floats}

pub data StalenessLevel : Type 0 where
  fresh aging stale suppressed : StalenessLevel

abbrev pub is_suppressed : StalenessLevel → Bool
is_suppressed suppressed = true
is_suppressed _ = false

module _ (f : Floats) where
  open f use {Num}

  -- The settings that `_thresholds` reads, in hours.
  pub record Thresholds : Type 0 where
    pub fresh_hours : Num
    pub aging_hours : Num
    pub stale_hours : Num

  abbrev pub level_of : Thresholds → Num → StalenessLevel
  level_of s hours =
      if f.ltb hours f.zero
      then fresh
      else if f.ltb hours s.fresh_hours
      then fresh
      else if f.ltb hours s.aging_hours
      then aging
      else if f.ltb hours s.stale_hours
      then stale
      else suppressed

  -- `classify_staleness`
  unfoldable pub classify_staleness : Thresholds → ℕ → ℕ → StalenessLevel
  classify_staleness s created_at now =
      level_of s (f.div (f.seconds created_at now) (f.ratio 360000 100))

  -- `_DEFAULT_REDUCTIONS`
  abbrev pub penalty_of : StalenessLevel → Num
  penalty_of fresh = f.zero
  penalty_of aging = f.ratio 500 100
  penalty_of stale = f.ratio 1500 100
  penalty_of suppressed = f.zero

  abbrev pub within : Num → Num
  within reduced =
      if f.ltb reduced f.zero
      then f.zero
      else if f.ltb (f.ratio 10000 100) reduced
      then f.ratio 10000 100
      else reduced

  unfoldable pub apply_confidence_reduction : Num → StalenessLevel → Num
  apply_confidence_reduction confidence suppressed = f.zero
  apply_confidence_reduction confidence fresh = within (f.sub confidence (penalty_of fresh))
  apply_confidence_reduction confidence aging = within (f.sub confidence (penalty_of aging))
  apply_confidence_reduction confidence stale = within (f.sub confidence (penalty_of stale))
