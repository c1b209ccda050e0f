-- ===== src/Safety/Guardian/Trail.antt =====
-- What the safety guardian writes: the audit row of a rejection, and the claim of an order.
use nivara.Prelude.{
  ℕ, String, ◌≡◌, ◌≢◌, refl, Bool, true, false, none, some, List, [], ◌∷◌, ◌++◌, arith,
  if◌then◌else◌,
}
use nivara.Decimals.{Decimals}
use nivara.Redis.Values.{Values}
use nivara.Redis.Scores.{Scores}
use nivara.Safety.Audit.{AuditLog}
use nivara.Safety.Decision.{
  Code, duplicate_order, Reason, Details, allow, reject, EventData, violation,
  event_safety_violation,
}
use nivara.Safety.KillSwitch.{FlagKey}
use nivara.Safety.Guardian.{
  OrdersKey, State, Decision, Action, record_violation, rejected, validate_position_size,
  check_daily_loss, check_max_drawdown, check_duplicate_order, check_limits, blocked,
  validate_action,
}

module _ (d : Decimals) (flags : Values FlagKey String) (orders : Scores OrdersKey String) where
  open d use {Num, Float}

  -- A row that says who was refused, and why, in the words of the decision.
  abbrev pub violation_row : ℕ → Code → Reason Num → Details Float → AuditLog (EventData Num Float)
  violation_row user code reason details = record {
    user_id = some user;
    event_type = event_safety_violation;
    event_data = some (violation code reason details);
    ip_address = none;
    user_agent = none;
  }

  -- Allowed with no row, or refused with one row that repeats the decision.
  pub data IsAudited (user : ℕ) (rows : List (AuditLog (EventData Num Float)))
      : Decision d flags orders → State d flags orders → Type 0 where
    silent : (s : State d flags orders) → s.audit ≡ rows → IsAudited user rows allow s
    logged :
        (code : Code) (reason : Reason Num) (details : Details Float) (s : State d flags orders)
        → s.audit ≡ rows ++ violation_row user code reason details ∷ []
        → IsAudited user rows (reject code reason details) s

  abbrev Audited :
      ℕ
      → List (AuditLog (EventData Num Float))
      → Decision d flags orders × State d flags orders
      → Type 0
  Audited user rows x = IsAudited user rows x.0 x.1

  rejected-Audited :
      (user : ℕ) (code : Code) (reason : Reason Num) (details : Details Float)
      (s : State d flags orders)
      → Audited user s.audit (rejected d flags orders user code reason details s)
  unfolding rejected record_violation
  rejected-Audited user code reason details s = logged code reason details _ refl

  -- A test decides between two audited ends.
  if-Audited :
      (user : ℕ) (rows : List (AuditLog (EventData Num Float))) (b : Bool)
      {x y : Decision d flags orders × State d flags orders}
      → Audited user rows x
      → Audited user rows y
      → Audited user rows (if b then x else y)
  if-Audited user rows true h k = h
  if-Audited user rows false h k = k

  position-Audited :
      (user inst : ℕ) (proposed portfolio pct : Num) (s : State d flags orders)
      → Audited user s.audit
          (validate_position_size d flags orders user inst proposed portfolio pct s)
  unfolding validate_position_size
  position-Audited user inst proposed portfolio pct s =
      search (rejected-Audited user, if-Audited, silent)

  daily_loss-Audited :
      (user : ℕ) (current start limit : Num) (s : State d flags orders)
      → Audited user s.audit (check_daily_loss d flags orders user current start limit s)
  unfolding check_daily_loss
  daily_loss-Audited user current start limit s = search (rejected-Audited user, if-Audited, silent)

  drawdown-Audited :
      (user : ℕ) (current peak limit : Num) (s : State d flags orders)
      → Audited user s.audit (check_max_drawdown d flags orders user current peak limit s)
  unfolding check_max_drawdown
  drawdown-Audited user current peak limit s = search (rejected-Audited user, if-Audited, silent)

  duplicate-Audited :
      (user : ℕ) (symbol side : String) (qty : Num) (window now : ℕ) (s : State d flags orders)
      → Audited user s.audit
          (check_duplicate_order d flags orders user symbol side qty window now s)
  unfolding check_duplicate_order
  duplicate-Audited user symbol side qty window now s =
      if-Audited user s.audit (orders.zadd_nx _ _ now _).0 (silent _ refl)
        (rejected-Audited user _ _ _ _)

  -- The next check runs only behind an allowing one, which has written no row.
  then-Audited :
      (user : ℕ) (rows : List (AuditLog (EventData Num Float))) {decision : Decision d flags orders}
      {s : State d flags orders}
      (next : State d flags orders → Decision d flags orders × State d flags orders)
      → IsAudited user rows decision s
      → ((s : State d flags orders) → Audited user s.audit (next s))
      → Audited user rows (if decision.allowed then next s else (decision, s))
  then-Audited user rows next (silent s same) k = rw (← same) (k s)
  then-Audited user rows next (logged code reason details s row) k =
      logged code reason details s row

  limits-Audited :
      (a : Action d flags orders) (s : State d flags orders)
      → Audited a.user_id s.audit (check_limits d flags orders a s)
  unfolding check_limits
  limits-Audited a s =
      then-Audited a.user_id s.audit _
        (then-Audited a.user_id s.audit _ (position-Audited a.user_id _ _ _ _ s)
          (daily_loss-Audited a.user_id _ _ _))
        (drawdown-Audited a.user_id _ _ _)

  -- `validate_action` allows an action and writes no audit row, or refuses it and appends exactly
  -- one row, of that user, with the code, the reason and the details of the decision.
  pub validate_action-IsAudited :
      (supplied : Bool) (a : Action d flags orders) (now : ℕ) (s : State d flags orders)
      → let (decision, s') = validate_action d flags orders supplied a now s in
        IsAudited a.user_id s.audit decision s'
  unfolding validate_action
  validate_action-IsAudited supplied a now s =
      if-Audited a.user_id s.audit (blocked d flags orders supplied a.user_id now s)
        (rejected-Audited a.user_id _ _ _ s)
        (then-Audited a.user_id s.audit _ (limits-Audited a s)
          (duplicate-Audited a.user_id a.symbol a.side a.qty a.window_seconds now))

  limits_recent :
      (a : Action d flags orders) (s : State d flags orders)
      → (check_limits d flags orders a s).1.recent ≡ s.recent
  unfolding check_limits validate_position_size check_daily_loss check_max_drawdown rejected
      record_violation
  limits_recent a s = ground arith

  limits_switches :
      (a : Action d flags orders) (s : State d flags orders)
      → (check_limits d flags orders a s).1.switches ≡ s.switches
  unfolding check_limits validate_position_size check_daily_loss check_max_drawdown rejected
      record_violation
  limits_switches a s = ground arith

  duplicate_switches :
      (user : ℕ) (symbol side : String) (qty : Num) (window now : ℕ) (s : State d flags orders)
      → (check_duplicate_order d flags orders user symbol side qty window now s).1.switches
        ≡ s.switches
  unfolding check_duplicate_order rejected record_violation
  duplicate_switches user symbol side qty window now s = ground arith

  duplicate_code :
      (user : ℕ) (symbol side : String) (qty : Num) (window now : ℕ) (s : State d flags orders)
      → (check_duplicate_order d flags orders user symbol side qty window now s).0.allowed ≡ false
      → (check_duplicate_order d flags orders user symbol side qty window now s).0.code
        ≡ some duplicate_order
  unfolding check_duplicate_order rejected
  duplicate_code user symbol side qty window now s = ground arith

  -- A refusal other than for a duplicate claims no order and flips no kill switch: Redis is as it was.
  pub validate_action_claims :
      (supplied : Bool) (a : Action d flags orders) (now : ℕ) (s : State d flags orders)
      → (validate_action d flags orders supplied a now s).0.allowed ≡ false
      → (validate_action d flags orders supplied a now s).0.code ≢ some duplicate_order
      → let s' = (validate_action d flags orders supplied a now s).1 in
        (s'.switches ≡ s.switches) × (s'.recent ≡ s.recent)
  unfolding validate_action rejected record_violation
  validate_action_claims supplied a now s refused other =
      let s' = (check_limits d flags orders a s).1 in
      let same = limits_switches a s in
      let kept = limits_recent a s in
      let after = duplicate_switches a.user_id a.symbol a.side a.qty a.window_seconds now s' in
      let code = duplicate_code a.user_id a.symbol a.side a.qty a.window_seconds now s' in
      (ground (arith, same, after), ground (arith, refused, other, kept, code))
