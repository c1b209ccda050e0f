-- ===== src/Safety/Guardian.antt =====
-- `class SafetyGuardian` of backend/app/safety/guardian.py. A check takes the state and returns its
-- decision with the new state. `time.time()` is the argument `now`.
pub mod Limits
pub mod Trail
pub mod Window
pub mod Texts
pub mod Switch
use Prim.Native.String.{◌++◌ as append}
use nivara.Prelude.{ℕ, ◌*◌, String, Bool, true, false, not, Option, none, some, List, if◌then◌else◌}
use nivara.Decimals.{Decimals}
use nivara.Redis.Values.{Values}
use nivara.Redis.Scores.{Scores}
use nivara.Safety.Audit.{AuditLog, record_entry}
use nivara.Safety.Decision.{
  Code, position_size, daily_loss, max_drawdown, duplicate_order, kill_switch, Reason,
  portfolio_zero, kill_switch_active, position_exceeds, daily_loss_breached, drawdown_breached,
  duplicate, Details, nothing, position, loss, drawdown, order, SafetyDecision, allow, reject,
  EventData, violation, event_safety_violation,
}
use nivara.Safety.KillSwitch
use nivara.Safety.KillSwitch.{FlagKey}

-- `safety:recent_orders:{user_id}`
pub data OrdersKey : Type 0 where
  recent_orders : ℕ → OrdersKey

module _ (d : Decimals) (flags : Values FlagKey String) (orders : Scores OrdersKey String) where
  open d use {Num, Float, zero, leb, sub, mul, div, to_float, text}
  open orders use {zscore, trim, zadd, zadd_nx, expire}

  -- The recent orders and the kill-switch flags in Redis, and the audit rows of the session.
  pub record State : Type 0 where
    pub recent : orders.Store
    pub switches : flags.Store
    pub audit : List (AuditLog (EventData Num Float))

  abbrev pub Decision : Type 0
  Decision = SafetyDecision Num Float

  unfoldable pub record_violation : ℕ → Code → Reason Num → Details Float → State → State
  record_violation user_id code reason details s = record s {
    audit =
        record_entry
          (record {
            user_id = some user_id;
            event_type = event_safety_violation;
            event_data = some (violation code reason details);
            ip_address = none;
            user_agent = none;
          })
          s.audit;
  }

  -- The violation is recorded, and the decision carries the same code, reason and details.
  unfoldable pub rejected : ℕ → Code → Reason Num → Details Float → State → Decision × State
  unfolding record_violation
  rejected user_id code reason details s =
      (reject code reason details, record_violation user_id code reason details s)

  unfoldable pub validate_position_size : ℕ → ℕ → Num → Num → Num → State → Decision × State
  validate_position_size user_id instrument_id proposed_value portfolio_value max_pct s =
      if leb portfolio_value zero
      then rejected user_id position_size portfolio_zero
          (position instrument_id (to_float proposed_value) (to_float portfolio_value)
            (to_float max_pct) none)
          s
      else if not (leb proposed_value (mul portfolio_value max_pct))
      then (let pct = div proposed_value portfolio_value in
          rejected user_id position_size (position_exceeds pct max_pct)
            (position instrument_id (to_float proposed_value) (to_float portfolio_value)
              (to_float max_pct) (some (to_float pct)))
            s)
      else (allow, s)

  unfoldable pub check_daily_loss : ℕ → Num → Num → Num → State → Decision × State
  check_daily_loss user_id current_value start_of_day_value limit_pct s =
      if leb start_of_day_value zero
      then (allow, s)
      else if leb (sub start_of_day_value current_value) zero
      then (allow, s)
      else (let loss_pct = div (sub start_of_day_value current_value) start_of_day_value in
          if leb limit_pct loss_pct
          then rejected user_id daily_loss (daily_loss_breached loss_pct limit_pct)
              (loss (to_float current_value) (to_float start_of_day_value) (to_float loss_pct)
                (to_float limit_pct))
              s
          else (allow, s))

  unfoldable pub check_max_drawdown : ℕ → Num → Num → Num → State → Decision × State
  check_max_drawdown user_id current_value peak_value limit_pct s =
      if leb peak_value zero
      then (allow, s)
      else if leb (sub peak_value current_value) zero
      then (allow, s)
      else (let drawdown_pct = div (sub peak_value current_value) peak_value in
          if leb limit_pct drawdown_pct
          then rejected user_id max_drawdown (drawdown_breached drawdown_pct limit_pct)
              (drawdown (to_float current_value) (to_float peak_value) (to_float drawdown_pct)
                (to_float limit_pct))
              s
          else (allow, s))

  -- `{symbol}|{side}|{qty}`
  unfoldable pub order_member : String → String → Num → String
  order_member symbol side qty = append symbol (append "|" (append side (append "|" (text qty))))

  abbrev pub last_seen : Option ℕ → ℕ → ℕ
  last_seen none now = now
  last_seen (some score) now = score

  unfoldable pub check_duplicate_order :
      ℕ → String → String → Num → ℕ → ℕ → State → Decision × State
  check_duplicate_order user_id symbol side qty window_seconds now s =
      let key = recent_orders user_id in
      let member = order_member symbol side qty in
      let (added, claimed) = zadd_nx key member now (trim key window_seconds now s.recent) in
      let kept = expire key (window_seconds * 2) now claimed in
      let s' = record s { recent = kept } in
      if added
      then (allow, s')
      else rejected user_id duplicate_order (duplicate symbol side qty window_seconds)
          (order symbol side (to_float qty) window_seconds
            (last_seen (zscore key member now kept) now))
          s'

  unfoldable pub record_order : ℕ → String → String → Num → ℕ → ℕ → State → State
  record_order user_id symbol side qty window_seconds now s =
      let key = recent_orders user_id in
      record s {
        recent =
            expire key (window_seconds * 2) now
              (zadd key (order_member symbol side qty) now s.recent);
      }

  -- `if not decision.allowed: return decision`, and else the next check.
  abbrev pub then_check : Decision × State → (State → Decision × State) → Decision × State
  then_check (decision, s) next = if decision.allowed then next s else (decision, s)

  -- The arguments of `validate_action`.
  pub record Action : Type 0 where
    pub user_id : ℕ
    pub instrument_id : ℕ
    pub symbol : String
    pub side : String
    pub qty : Num
    pub proposed_value : Num
    pub portfolio_value : Num
    pub start_of_day_value : Num
    pub peak_value : Num
    pub max_position_pct : Num
    pub daily_loss_pct : Num
    pub max_drawdown_pct : Num
    pub window_seconds : ℕ

  -- The three checks that only read, in their order.
  unfoldable pub check_limits : Action → State → Decision × State
  check_limits a s =
      then_check
        (then_check
          (validate_position_size a.user_id a.instrument_id a.proposed_value a.portfolio_value
            a.max_position_pct s)
          (check_daily_loss a.user_id a.portfolio_value a.start_of_day_value a.daily_loss_pct))
        (check_max_drawdown a.user_id a.portfolio_value a.peak_value a.max_drawdown_pct)

  -- `kill_switch is not None and await kill_switch.is_active(user_id)`
  unfoldable pub blocked : Bool → ℕ → ℕ → State → Bool
  blocked false user_id now s = false
  blocked true user_id now s = KillSwitch.is_active flags user_id now s.switches

  -- `supplied` says whether a kill-switch service is passed.
  unfoldable pub validate_action : Bool → Action → ℕ → State → Decision × State
  validate_action supplied a now s =
      if blocked supplied a.user_id now s
      then rejected a.user_id kill_switch kill_switch_active nothing s
      else then_check (check_limits a s)
          (check_duplicate_order a.user_id a.symbol a.side a.qty a.window_seconds now)
