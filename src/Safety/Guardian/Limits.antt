-- ===== src/Safety/Guardian/Limits.antt =====
-- When the safety guardian lets an action pass.
use nivara.Prelude.{ℕ, String, ◌≡◌, ◌↔◌, ◌⊎◌, Bool, true, false, not, ◌||◌, none, arith}
use nivara.Decimals.{Decimals}
use nivara.Redis.Values.{Values}
use nivara.Redis.Scores.{Scores, trimmed}
use nivara.Safety.KillSwitch.{FlagKey}
use nivara.Safety.Sizer.{is_within_limit}
use nivara.Safety.Guardian.{
  OrdersKey, recent_orders, State, Action, rejected, validate_position_size, check_daily_loss,
  check_max_drawdown, check_duplicate_order, order_member, check_limits, blocked, validate_action,
}

implied : {a b : Bool} → (a ≡ true → b ≡ true) → (not a || b) ≡ true
implied f = ground (arith, f)

module _ (d : Decimals) (flags : Values FlagKey String) (orders : Scores OrdersKey String) where
  open d use {Num, zero, leb, sub, mul, div, sub_nonpos, leb_trans, sub_anti, div_mono}
  open orders use {zscore, trim_self, zadd_nx_lem}

  -- Below the base value by less than the limit, or not below it, or no base to compare with.
  abbrev pub LossWithin : Num → Num → Num → Type 0
  LossWithin base current limit =
      (leb base zero ≡ true)
      ⊎ (leb base current ≡ true)
      ⊎ (leb limit (div (sub base current) base) ≡ false)

  abbrev pub SizeWithin : Num → Num → Num → Type 0
  SizeWithin proposed portfolio max_pct =
      (leb portfolio zero ≡ false) × (leb proposed (mul portfolio max_pct) ≡ true)

  -- No order with this text was admitted within the window.
  abbrev pub IsFresh : ℕ → String → ℕ → ℕ → State d flags orders → Type 0
  IsFresh user_id member window now s =
      trimmed window now (zscore (recent_orders user_id) member now s.recent) ≡ none

  pub position_iff :
      (user inst : ℕ) (proposed portfolio pct : Num) (s : State d flags orders)
      → (validate_position_size d flags orders user inst proposed portfolio pct s).0.allowed ≡ true
        ↔ SizeWithin proposed portfolio pct
  unfolding validate_position_size rejected
  position_iff user inst proposed portfolio pct s = (ground arith, ground arith)

  -- The guardian's position check allows exactly the values that `PositionSizer.is_within_limit`
  -- accepts.
  pub position-eq-is_within_limit :
      (user inst : ℕ) (proposed portfolio pct : Num) (s : State d flags orders)
      → (validate_position_size d flags orders user inst proposed portfolio pct s).0.allowed
        ≡ is_within_limit d proposed portfolio pct
  unfolding validate_position_size rejected is_within_limit
  position-eq-is_within_limit user inst proposed portfolio pct s = ground arith

  pub daily_loss_iff :
      (user : ℕ) (current start limit : Num) (s : State d flags orders)
      → (check_daily_loss d flags orders user current start limit s).0.allowed ≡ true
        ↔ LossWithin start current limit
  unfolding check_daily_loss rejected
  daily_loss_iff user current start limit s =
      (ground (arith, sub_nonpos start current), ground (arith, sub_nonpos start current))

  pub drawdown_iff :
      (user : ℕ) (current peak limit : Num) (s : State d flags orders)
      → (check_max_drawdown d flags orders user current peak limit s).0.allowed ≡ true
        ↔ LossWithin peak current limit
  unfolding check_max_drawdown rejected
  drawdown_iff user current peak limit s =
      (ground (arith, sub_nonpos peak current), ground (arith, sub_nonpos peak current))

  pub IsFresh-iff :
      (user : ℕ) (symbol side : String) (qty : Num) (window now : ℕ) (s : State d flags orders)
      → (check_duplicate_order d flags orders user symbol side qty window now s).0.allowed ≡ true
        ↔ IsFresh user (order_member d flags orders symbol side qty) window now s
  unfolding check_duplicate_order rejected
  IsFresh-iff user symbol side qty window now s =
      let key = recent_orders user in
      let member = order_member d flags orders symbol side qty in
      let seen = trim_self key member window now s.recent in
      let added = zadd_nx_lem key member now (orders.trim key window now s.recent) in
      (ground (arith, seen, added), ground (arith, seen, added))

  -- The three limits that `validate_action` reads.
  abbrev pub LimitsHold : Action d flags orders → Type 0
  LimitsHold a =
      SizeWithin a.proposed_value a.portfolio_value a.max_position_pct
      × LossWithin a.start_of_day_value a.portfolio_value a.daily_loss_pct
      × LossWithin a.peak_value a.portfolio_value a.max_drawdown_pct

  -- A check that allows leaves the state as it is.
  pub limits_keep :
      (a : Action d flags orders) (s : State d flags orders)
      → (check_limits d flags orders a s).0.allowed ≡ true
      → (check_limits d flags orders a s).1 ≡ s
  unfolding check_limits validate_position_size check_daily_loss check_max_drawdown rejected
  limits_keep a s h = ground arith

  pub limits_iff :
      (a : Action d flags orders) (s : State d flags orders)
      → (check_limits d flags orders a s).0.allowed ≡ true ↔ LimitsHold a
  unfolding check_limits validate_position_size check_daily_loss check_max_drawdown rejected
  limits_iff a s =
      let day = sub_nonpos a.start_of_day_value a.portfolio_value in
      let peak = sub_nonpos a.peak_value a.portfolio_value in
      (ground (arith, day, peak), ground (arith, day, peak))

  -- `validate_action` allows an action exactly when the kill switch is off, the three limits hold
  -- and no such order was admitted within the window.
  pub validate_action_iff :
      (supplied : Bool) (a : Action d flags orders) (now : ℕ) (s : State d flags orders)
      → (validate_action d flags orders supplied a now s).0.allowed ≡ true
        ↔ (blocked d flags orders supplied a.user_id now s ≡ false)
          × LimitsHold a
          × IsFresh a.user_id
              (order_member d flags orders a.symbol a.side a.qty)
              a.window_seconds
              now
              s
  unfolding validate_action rejected
  validate_action_iff supplied a now s =
      let lim = limits_iff a s in
      let keep = limits_keep a s in
      let fresh = IsFresh-iff a.user_id a.symbol a.side a.qty a.window_seconds now s in
      (ground (arith, lim.0, keep, fresh.0), ground (arith, lim.1, keep, fresh.1))

  -- A loss within the limit stays within it at a higher current value.
  within_mono :
      (base lower higher limit : Num)
      → leb lower higher ≡ true
      → LossWithin base lower limit
      → LossWithin base higher limit
  within_mono base lower higher limit h w = ground (
    arith,
    leb_trans base lower higher,
    sub_anti lower higher base,
    div_mono (sub base higher) (sub base lower) base,
    leb_trans limit (div (sub base higher) base) (div (sub base lower) base),
  )

  -- The two loss checks are monotone: where they allow a current value, they allow every higher one.
  pub loss_checks_mono :
      (user : ℕ) (start peak lower higher day_limit peak_limit : Num) (s : State d flags orders)
      → leb lower higher ≡ true
      → let daily =
          λ (v : Num). (check_daily_loss d flags orders user v start day_limit s).0.allowed in
        let drop =
          λ (v : Num). (check_max_drawdown d flags orders user v peak peak_limit s).0.allowed in
        (not (daily lower) || daily higher ≡ true) × (not (drop lower) || drop higher ≡ true)
  loss_checks_mono user start peak lower higher day_limit peak_limit s h = (
    implied (λ ok. (daily_loss_iff user higher start day_limit s).1 (
        within_mono start lower higher day_limit h
          ((daily_loss_iff user lower start day_limit s).0 ok))),
    implied (λ ok. (drawdown_iff user higher peak peak_limit s).1 (
        within_mono peak lower higher peak_limit h
          ((drawdown_iff user lower peak peak_limit s).0 ok))),
  )
