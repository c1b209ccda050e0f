-- ===== src/Analysis/Meter.antt =====
-- What the risk meter and the health score share: a component, and the blend of the components that have
-- a score. Without the details for the display.
pub mod Bounds
use nivara.Prelude.{
  ℕ, String, Bool, true, false, ◌&&◌, Option, none, some, List, [], ◌∷◌, if◌then◌else◌,
}
use nivara.Floats.{Floats}
use nivara.Intelligence.Engines.{percent, clamp}

module _ (f : Floats) where
  open f use {Num}

  pub record Component : Type 0 where
    pub name : String
    pub score : Option Num
    pub weight : Num

  abbrev pub is_zero : Num → Bool
  is_zero v = f.leb v f.zero && f.leb f.zero v

  abbrev pub quotient : Num → Num → Num
  quotient weighted weight_sum = if is_zero weight_sum then f.zero else f.div weighted weight_sum

  -- The loop over the components, with `weighted` and `weight_sum`.
  unfoldable pub blend : Num → Num → List Component → Num
  blend weighted weight_sum [] = quotient weighted weight_sum
  blend weighted weight_sum (c ∷ components) = elim c.score [
    | none ↦ blend weighted weight_sum components
    | some score ↦
        blend (f.add weighted (f.mul score c.weight)) (f.add weight_sum c.weight) components
  ]

  -- `round(max(0.0, min(100.0, v)), 1)`
  unfoldable pub rounded : Num → Num
  unfolding clamp
  rounded v = f.round_1 (clamp f v f.zero (percent f 10000))

  unfoldable pub overall : List Component → Num
  unfolding blend rounded
  overall components = rounded (blend f.zero f.zero components)

  -- The sum of the squared shares of the weights, on the absolute values.
  abbrev pub sum_abs : Num → List Num → Num
  sum_abs total [] = total
  sum_abs total (w ∷ weights) = sum_abs (f.add total (f.abs w)) weights

  abbrev pub sum_squares : Num → Num → List Num → Num
  sum_squares total sum [] = sum
  sum_squares total sum (w ∷ weights) =
      let share = f.div (f.abs w) total in sum_squares total (f.add sum (f.mul share share)) weights

  abbrev pub hhi : List Num → Num
  hhi weights = sum_squares (sum_abs f.zero weights) f.zero weights

  -- The score of a book with this index, none where no weight is given or they sum to nothing.
  abbrev pub scored : (Num → Num) → List Num → Option Num
  scored score [] = none
  scored score (w ∷ weights) =
      if f.leb (sum_abs f.zero (w ∷ weights)) f.zero then none else some (score (hhi (w ∷ weights)))
