-- ===== src/Corporate/Detect/Explained.antt =====
-- What the detectors flag, and that a recorded detection can be applied
-- (backend/app/services/corporate_actions.py).
use nivara.Prelude.{
  ℕ, String, false, not, ◌&&◌, Option, none, some, List, [], ◌∷◌, ◌++◌, ◌≡◌, refl, is_some, arith,
  if◌then◌else◌, Bool-cases, inl, inr,
}
use nivara.Decimals.{Decimals}
use nivara.Corporate.Actions.{CorporateAction, SplitDetection, Order, State, find_action}
use nivara.Corporate.Detect.{
  detection_of, split_action, add_action, detect_from_adjustment_factor, is_fill, signed, add_fills,
  order_delta, flagged_action, detect_broker_position_anomaly,
}
use nivara.Corporate.Apply.{updated, is_applied, apply_split}
use nivara.Corporate.Apply.Rows.{bars_before_ex, apply_split-rows}

module _ (d : Decimals) where
  open d use {Num}

  find_action-append :
      (id : ℕ) (rows : List (CorporateAction d)) (row : CorporateAction d)
      → find_action d id rows ≡ none
      → row.id ≡ id
      → find_action d id (rows ++ row ∷ []) ≡ some row
  find_action-append id [] row h e = ground arith
  find_action-append id (r ∷ rows) row h e = ground (arith, find_action-append id rows row)

  abbrev pub fills : ℕ → ℕ → ℕ → ℕ → List (Order d) → List (Order d)
  fills conn instrument_id since until [] = []
  fills conn instrument_id since until (o ∷ orders) =
      if is_fill d conn instrument_id since until o
      then o ∷ fills conn instrument_id since until orders
      else fills conn instrument_id since until orders

  abbrev pub add_signed : Num → List (Order d) → Num
  add_signed total [] = total
  add_signed total (o ∷ orders) = add_signed (d.add total (signed d o)) orders

  abbrev pub sum_signed : List (Order d) → Num
  sum_signed orders = add_signed d.zero orders

  add_fills-fills :
      (conn instrument_id since until : ℕ) (total : Num) (orders : List (Order d))
      → add_fills d conn instrument_id since until total orders
        ≡ add_signed total (fills conn instrument_id since until orders)
  add_fills-fills conn instrument_id since until total [] = refl
  add_fills-fills conn instrument_id since until total (o ∷ orders) =
      elim (Bool-cases (is_fill d conn instrument_id since until o)) [
        | inl e ↦
            rw e (add_fills-fills conn instrument_id since until (d.add total (signed d o)) orders)
        | inr e ↦ rw e (add_fills-fills conn instrument_id since until total orders)
      ]

  order_delta-fills :
      (conn instrument_id since until : ℕ) (orders : List (Order d))
      → order_delta d conn instrument_id since until orders
        ≡ sum_signed (fills conn instrument_id since until orders)
  unfolding order_delta
  order_delta-fills conn instrument_id since until orders =
      add_fills-fills conn instrument_id since until d.zero orders

  -- A detection that is recorded under a new id, with notes that are not marked as applied, can be
  -- applied at once: `apply_split` on it does not raise, and returns the number of the instrument's
  -- bars in the window.
  pub detect-apply :
      (store_volume : Num → ℕ → ℕ) (new_id instrument_id ex_date days : ℕ) (factor : Num)
      (currency notes : Option String) (user : Option ℕ) (s : State d) (det : SplitDetection d)
      → find_action d new_id s.actions ≡ none
      → is_applied notes ≡ false
      → (detect_from_adjustment_factor d new_id instrument_id ex_date factor currency notes s).0
        ≡ some det
      → (apply_split d store_volume days none user det
          (detect_from_adjustment_factor d new_id instrument_id ex_date factor currency notes
            s).1).0
        ≡ updated (bars_before_ex d store_volume instrument_id days ex_date s.history)
  unfolding detect_from_adjustment_factor
  detect-apply store_volume new_id instrument_id ex_date days factor currency notes user s det new
        fresh h =
      elim (Bool-cases (d.eq factor d.one)) [
        | inl e ↦ absurd (ground arith)
        | inr e ↦
            let action = split_action d new_id instrument_id ex_date factor currency notes in
            let found : find_action d new_id (s.actions ++ action ∷ []) ≡ some action =
              find_action-append new_id s.actions action new refl in
            ground (
              arith,
              apply_split-rows d store_volume days user
                  (detection_of d new_id instrument_id ex_date factor) (add_action d action s)
                  action found fresh,
            )
      ]

  -- The anomaly check flags a change of quantity exactly where it is beyond the tolerance and differs
  -- by more than the tolerance from the sum of the signed fills of the connection and the
  -- instrument between the two syncs. A flag adds one row, under the new id, behind the actions, and
  -- nothing else changes: no price, cached indicator or audit row.
  pub anomaly-flagged :
      (tolerance : Num) (new_id conn instrument_id : ℕ) (previous_qty new_qty : Num)
      (since observed : ℕ) (orders : List (Order d)) (s : State d)
      → let r =
          detect_broker_position_anomaly d tolerance new_id conn instrument_id previous_qty new_qty
            since observed orders s in
        let change = d.sub new_qty previous_qty in
        let flag =
          not (d.leb (d.abs change) tolerance)
          && not (
              d.leb
                (d.abs (d.sub change (sum_signed (fills conn instrument_id since observed orders))))
                tolerance) in
        (is_some r.0 ≡ flag)
        × (r.1 ≡ (
            if flag
            then add_action d
                (flagged_action d new_id instrument_id previous_qty new_qty observed)
                s
            else s))
  unfolding detect_broker_position_anomaly
  anomaly-flagged tolerance new_id conn instrument_id previous_qty new_qty since observed orders s =
      ground (arith, order_delta-fills conn instrument_id since observed orders)
