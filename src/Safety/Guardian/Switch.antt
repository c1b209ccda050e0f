-- ===== src/Safety/Guardian/Switch.antt =====
-- The kill switch and the guardian together.
use nivara.Prelude.{ℕ, ◌≤◌, String, ◌≡◌, true, false, some, none, arith, if◌then◌else◌}
use nivara.Decimals.{Decimals}
use nivara.Redis.Values.{Values}
use nivara.Redis.Scores.{Scores}
use nivara.Safety.Decision.{kill_switch}
use nivara.Safety.KillSwitch.{FlagKey, kill_switch_key, Switches, activate, deactivate, is_active}
use nivara.Safety.Guardian.{OrdersKey, State, Action, rejected, blocked, validate_action}

module _ (d : Decimals) (flags : Values FlagKey String) (orders : Scores OrdersKey String) where
  open d use {Num, Float}
  open flags use {same, get-set, get-delete, same_iff}

  -- The guardian's state behind a kill-switch call on the same Redis and session.
  abbrev pub switched : Switches flags Num Float → State d flags orders → State d flags orders
  switched k s = record s { switches = k.store; audit = k.rows }

  -- Each flip changes what `is_active` says of the users with that key, and of no other.
  pub is_active-flip :
      (user other now t : ℕ) (k : Switches flags Num Float)
      → now ≤ t
      → (is_active flags other t (activate flags Num Float user now k).1.store ≡ (
          if same (kill_switch_key user) (kill_switch_key other)
          then true
          else is_active flags other t k.store))
        × (is_active flags other t (deactivate flags Num Float user k).store ≡ (
            if same (kill_switch_key user) (kill_switch_key other)
            then false
            else is_active flags other t k.store))
  unfolding activate deactivate is_active
  is_active-flip user other now t k h = (
    ground (arith, get-set (kill_switch_key user) (kill_switch_key other) "1" none now t k.store h),
    ground (arith, get-delete (kill_switch_key user) (kill_switch_key other) t k.store),
  )

  -- From its activation on, a kill switch that is consulted makes `validate_action` refuse every
  -- action of its user with its own code.
  pub activate_refuses :
      (a : Action d flags orders) (now t : ℕ) (k : Switches flags Num Float)
      (s : State d flags orders)
      → now ≤ t
      → let k' = (activate flags Num Float a.user_id now k).1 in
        let decision = (validate_action d flags orders true a t (switched k' s)).0 in
        (decision.allowed ≡ false) × (decision.code ≡ some kill_switch)
  unfolding validate_action blocked rejected
  activate_refuses a now t k s h =
      let on = (is_active-flip a.user_id a.user_id now t k h).0 in
      let key = kill_switch_key a.user_id in
      let self = (same_iff key key).1 (λ i. key) in
      (ground (arith, on, self), ground (arith, on, self))
