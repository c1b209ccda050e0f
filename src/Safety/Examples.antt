-- ===== src/Safety/Examples.antt =====
-- Tests of the safety layer, on stores in memory and amounts in hundredths.
use nivara.Prelude.{
  ℕ, String, ◌≡◌, refl, ◌↔◌, ◌≢◌, Bool, true, false, none, some, [], ◌==◌, str_eq, eq_refl, arith,
}
use nivara.Decimals.{hundredths}
use nivara.Redis.Values
use nivara.Redis.Values.{Values}
use nivara.Redis.Scores
use nivara.Redis.Scores.{Scores}
use nivara.Safety.KillSwitch.{FlagKey, kill_switch_key, is_active, Switches}
use nivara.Safety.Decision.{duplicate_order}
use nivara.Safety.Guardian.Limits.{LimitsHold, IsFresh, validate_action_iff}
use nivara.Safety.Guardian.Trail.{IsAudited, validate_action-IsAudited}
use nivara.Safety.Guardian.Window.{validate_action_once}
use nivara.Safety.Guardian.Texts.{other_text_passes}
use nivara.Safety.Guardian.{
  rejected, check_daily_loss, check_max_drawdown, check_limits, OrdersKey, recent_orders, State,
  Action, validate_position_size, check_duplicate_order, validate_action, order_member, blocked,
}

abbrev same_flag : FlagKey → FlagKey → Bool
same_flag (kill_switch_key u) (kill_switch_key v) = u == v

same_flag_iff : (k j : FlagKey) → (same_flag k j ≡ true → k ≡ j) × (k ≡ j → same_flag k j ≡ true)
same_flag_iff (kill_switch_key u) (kill_switch_key v) = (ground arith, ground arith)

abbrev same_orders : OrdersKey → OrdersKey → Bool
same_orders (recent_orders u) (recent_orders v) = u == v

same_orders_refl : (k : OrdersKey) → same_orders k k ≡ true
same_orders_refl (recent_orders u) = ground arith

abbrev flags : Values FlagKey String
flags = Values.memory String same_flag same_flag_iff

abbrev orders : Scores OrdersKey String
orders = Scores.memory same_orders str_eq same_orders_refl eq_refl

abbrev start : State hundredths flags orders
start = record {
  recent = λ k. record { score = λ m. none; deadline = none };
  switches = λ k. none;
  audit = [];
}

-- A buy of one share in a portfolio that has lost two percent.
abbrev buy : Action hundredths flags orders
buy = record {
  user_id = 7;
  instrument_id = 1;
  symbol = "AAPL";
  side = "buy";
  qty = 1;
  proposed_value = 900;
  portfolio_value = 9800;
  start_of_day_value = 10000;
  peak_value = 10000;
  max_position_pct = 10;
  daily_loss_pct = 5;
  max_drawdown_pct = 20;
  window_seconds = 60;
}

-- The state behind the buy.
abbrev bought : State hundredths flags orders
bought = (validate_action hundredths flags orders true buy 1000 start).1

abbrev no_flags : Switches flags ℕ ℕ
no_flags = record { store = λ k. none; rows = [] }

-- A loss of eight percent.
abbrev losing : Action hundredths flags orders
losing = record buy { portfolio_value = 9200 }

buy_allowed : (validate_action hundredths flags orders true buy 1000 start).0.allowed ≡ true
unfolding validate_action blocked is_active check_limits validate_position_size check_daily_loss
    check_max_drawdown check_duplicate_order order_member
buy_allowed = refl

share_allowed :
    (check_duplicate_order hundredths flags orders 7 "AAPL" "buy" 1 60 1000 start).0.allowed ≡ true
unfolding check_duplicate_order order_member
share_allowed = refl

share_seen :
    orders.zscore
      (recent_orders 7)
      (order_member hundredths flags orders "AAPL" "buy" 1)
      1010
      (check_duplicate_order hundredths flags orders 7 "AAPL" "buy" 1 60 1000 start).1.recent
    ≡ some 1000
unfolding check_duplicate_order order_member
share_seen = refl

losing_refused : (validate_action hundredths flags orders true losing 1000 start).0.allowed ≡ false
unfolding validate_action blocked is_active check_limits validate_position_size check_daily_loss
    check_max_drawdown rejected
losing_refused = refl

losing_code :
    (validate_action hundredths flags orders true losing 1000 start).0.code ≢ some duplicate_order
unfolding validate_action blocked is_active check_limits validate_position_size check_daily_loss
    check_max_drawdown rejected
losing_code e = cc e

validate_action_iff_example :
    (validate_action hundredths flags orders true buy 1000 start).0.allowed ≡ true
    ↔ (blocked hundredths flags orders true 7 1000 start ≡ false)
      × LimitsHold hundredths flags orders buy
      × IsFresh hundredths flags orders 7
          (order_member hundredths flags orders "AAPL" "buy" 1)
          60
          1000
          start
validate_action_iff_example = validate_action_iff hundredths flags orders true buy 1000 start

validate_action_once_example :
    (validate_action hundredths flags orders false buy 1059 bought).0.allowed ≡ false
validate_action_once_example =
    validate_action_once hundredths flags orders true false buy buy 1000 1059 start refl refl refl
      buy_allowed (omega arith) (omega arith)

validate_action-IsAudited_example :
    IsAudited hundredths flags orders 7 []
      (validate_action hundredths flags orders true losing 1000 start).0
      (validate_action hundredths flags orders true losing 1000 start).1
validate_action-IsAudited_example =
    validate_action-IsAudited hundredths flags orders true losing 1000 start

texts_differ :
    str_eq
      (order_member hundredths flags orders "AAPL" "buy" 1)
      (order_member hundredths flags orders "AAPL" "buy" 2)
    ≡ false
unfolding order_member
texts_differ = refl

other_text_passes_example :
    (check_duplicate_order hundredths flags orders 7 "AAPL" "buy" 2 60 1001
      (check_duplicate_order hundredths flags orders 7 "AAPL" "buy" 1 60 1000 start).1).0.allowed
    ≡ true
other_text_passes_example =
    other_text_passes hundredths flags orders 7 "AAPL" "buy" "AAPL" "buy" 1 2 60 1000 1001 start
      texts_differ (omega arith) refl
