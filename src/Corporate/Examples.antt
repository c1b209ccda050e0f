-- ===== src/Corporate/Examples.antt =====
-- Runs of the corporate-action service on amounts in hundredths.
use nivara.Prelude.{ℕ, ◌*◌, ◌/◌, true, none, some, [], ◌∷◌, ◌≡◌, refl, is_some, map}
use nivara.Decimals.{Decimals, hundredths}
use nivara.Corporate.Actions.{CorporateAction, PriceHistory, SplitDetection, Order, State, tech}
use nivara.Corporate.Detect.{
  detection_of, split_action, detect_from_adjustment_factor, detect_broker_position_anomaly,
}
use nivara.Corporate.Apply.{updated, apply_split}
use nivara.Corporate.Apply.Once.{apply_split-again}
use nivara.Corporate.Apply.Rows.{bars_before_ex, rescale, keys_of_others, apply_split-rows}

abbrev d : Decimals
d = hundredths

abbrev store : ℕ → ℕ → ℕ
store factor volume = volume * factor / 100

abbrev bar : ℕ → ℕ → PriceHistory d
bar id day = record {
  instrument_id = id;
  timestamp = day * 86400;
  open_price = 1000;
  high = 1200;
  low = 900;
  close = 1100;
  volume = 50;
}

abbrev empty_notes : CorporateAction d
empty_notes = split_action d 3 5 20 50 none none

abbrev s : State d
s = record {
  actions = empty_notes ∷ [];
  history = bar 5 1 ∷ bar 5 15 ∷ bar 5 20 ∷ bar 6 15 ∷ [];
  cache = tech 5 "rsi" ∷ tech 6 "rsi" ∷ [];
  audit = [];
}

abbrev halve : SplitDetection d
halve = detection_of d 3 5 20 50

one_bar : (apply_split d store 10 none none halve s).0 ≡ updated 1
unfolding apply_split
one_bar = refl

apply_split-again_example :
    apply_split d store 10 none none halve (apply_split d store 10 none none halve s).1
    ≡ (updated 0, (apply_split d store 10 none none halve s).1)
apply_split-again_example =
    apply_split-again d store 10 10 none none none none halve halve s 1 refl one_bar

apply_split-rows_example :
    let r = apply_split d store 10 none none halve s in
    (r.0 ≡ updated (bars_before_ex d store 5 10 20 s.history))
    × (r.1.history ≡ map (rescale d store 5 10 20 50) s.history)
    × (r.1.cache ≡ keys_of_others 5 s.cache)
apply_split-rows_example = apply_split-rows d store 10 none halve s empty_notes refl refl

detected :
    (detect_from_adjustment_factor d 4 5 20 50 none none s).0 ≡ some (detection_of d 4 5 20 50)
unfolding detect_from_adjustment_factor
detected = refl

abbrev buy : Order d
buy = record {
  broker_connection_id = 1;
  instrument_id = 5;
  side = "buy";
  quantity = 200;
  status = "filled";
  created_at = 50;
}

is_flagged : is_some (detect_broker_position_anomaly d 1 9 1 5 500 1000 0 100 (buy ∷ []) s).0 ≡ true
unfolding detect_broker_position_anomaly
is_flagged = refl
