-- ===== src/Corporate/Detect.antt =====
-- `detect_from_adjustment_factor` and `detect_broker_position_anomaly`. The id of a new row is drawn.
pub mod Explained
use Prim.Native.String.{◌++◌ as append}
use nivara.Prelude.{
  ℕ, ◌/◌, String, Bool, true, false, ◌&&◌, ◌||◌, Option, none, some, List, [], ◌∷◌, ◌++◌, leb, ◌==◌,
  str_eq, if◌then◌else◌,
}
use nivara.Decimals.{Decimals}
use nivara.Corporate.Actions.{
  CorporateAction, SplitDetection, QtyAnomaly, Order, State, flagged_marker, seconds_per_day,
}

module _ (d : Decimals) where
  open d use {Num}

  abbrev pub detection_of : ℕ → ℕ → ℕ → Num → SplitDetection d
  detection_of new_id instrument_id ex_date factor = record {
    instrument_id = instrument_id;
    ex_date = ex_date;
    factor = factor;
    corporate_action_id = new_id;
  }

  abbrev pub split_action : ℕ → ℕ → ℕ → Num → Option String → Option String → CorporateAction d
  split_action new_id instrument_id ex_date factor currency notes = record {
    id = new_id;
    instrument_id = instrument_id;
    action_type = "split";
    ex_date = ex_date;
    ratio_or_amount = factor;
    currency = currency;
    notes = notes;
  }

  abbrev pub add_action : CorporateAction d → State d → State d
  add_action row s = record s { actions = s.actions ++ row ∷ [] }

  -- `factor == NO_ACTION_FACTOR`: nothing to record.
  unfoldable pub detect_from_adjustment_factor :
      ℕ
      → ℕ
      → ℕ
      → Num
      → Option String
      → Option String
      → State d
      → Option (SplitDetection d) × State d
  detect_from_adjustment_factor new_id instrument_id ex_date factor currency notes s =
      if d.eq factor d.one then (none, s) else (
        some (detection_of new_id instrument_id ex_date factor),
        add_action (split_action new_id instrument_id ex_date factor currency notes) s,
      )

  -- The orders of the connection and the instrument that were filled between two syncs.
  abbrev pub is_fill : ℕ → ℕ → ℕ → ℕ → Order d → Bool
  is_fill conn instrument_id since until o =
      (o.broker_connection_id == conn)
      && ((o.instrument_id == instrument_id)
          && ((str_eq o.status "filled" || str_eq o.status "partial")
              && (leb since o.created_at && leb o.created_at until)))

  abbrev pub signed : Order d → Num
  signed o = if str_eq o.side "buy" then o.quantity else d.neg o.quantity

  -- `order_delta += signed` over the fills.
  abbrev pub add_fills : ℕ → ℕ → ℕ → ℕ → Num → List (Order d) → Num
  add_fills conn instrument_id since until total [] = total
  add_fills conn instrument_id since until total (o ∷ orders) =
      add_fills conn instrument_id since until
        (if is_fill conn instrument_id since until o then d.add total (signed o) else total) orders

  -- `abs(a - b) <= QTY_ANOMALY_TOLERANCE`
  abbrev pub is_close : Num → Num → Num → Bool
  is_close tolerance a b = d.leb (d.abs (d.sub a b)) tolerance

  unfoldable pub order_delta : ℕ → ℕ → ℕ → ℕ → List (Order d) → Num
  order_delta conn instrument_id since until orders =
      add_fills conn instrument_id since until d.zero orders

  abbrev pub anomaly_notes : Num → Num → String
  anomaly_notes previous_qty new_qty =
      append flagged_marker
        (append " prev=" (append (d.text previous_qty) (append " new=" (d.text new_qty))))

  abbrev pub flagged_action : ℕ → ℕ → Num → Num → ℕ → CorporateAction d
  flagged_action new_id instrument_id previous_qty new_qty observed = record {
    id = new_id;
    instrument_id = instrument_id;
    action_type = "split";
    ex_date = observed / seconds_per_day;
    ratio_or_amount = if d.eq new_qty d.zero then d.one else d.div previous_qty new_qty;
    currency = none;
    notes = some (anomaly_notes previous_qty new_qty);
  }

  -- `observed` is the given time, or the clock's.
  unfoldable pub detect_broker_position_anomaly :
      Num
      → ℕ
      → ℕ
      → ℕ
      → Num
      → Num
      → ℕ
      → ℕ
      → List (Order d)
      → State d
      → Option (QtyAnomaly d) × State d
  unfolding order_delta
  detect_broker_position_anomaly tolerance new_id conn instrument_id previous_qty new_qty since
        observed orders s =
      if is_close tolerance new_qty previous_qty
      then (none, s)
      else if is_close tolerance (d.sub new_qty previous_qty)
          (order_delta conn instrument_id since observed orders)
      then (none, s)
      else (
        some (record {
          instrument_id = instrument_id;
          broker_connection_id = conn;
          observed_at = observed;
          previous_qty = previous_qty;
          new_qty = new_qty;
          corporate_action_id = new_id;
        }),
        add_action (flagged_action new_id instrument_id previous_qty new_qty observed) s,
      )
