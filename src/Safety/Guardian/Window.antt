-- ===== src/Safety/Guardian/Window.antt =====
-- The rolling window of the duplicate check.
use Prim.Native.Nat.{◌*◌}
use nivara.Prelude.{
  ℕ, ◌+◌, ◌≤◌, ◌<◌, String, ◌≡◌, Bool, true, false, Option, none, some, arith, leb, if◌then◌else◌,
}
use nivara.Decimals.{Decimals}
use nivara.Redis.Values.{Values}
use nivara.Redis.Scores.{Scores, trimmed}
use nivara.Safety.KillSwitch.{FlagKey}
use nivara.Safety.Guardian.{
  OrdersKey, recent_orders, State, Action, rejected, record_violation, check_duplicate_order,
  order_member, validate_action,
}
use nivara.Safety.Guardian.Limits.{IsFresh-iff, limits_keep, validate_action_iff}

module _ (d : Decimals) (flags : Values FlagKey String) (orders : Scores OrdersKey String) where
  open d use {Num}
  open orders use {
    zscore, trim, zadd, zadd_nx, same_refl, same_member_refl, trim_self, zadd_self, zadd_nx_lem,
    expire_self, trim_other, zadd_other, expire_other,
  }

  -- The time of the last admission that the window still holds, after a check.
  abbrev pub claim : ℕ → Option ℕ → ℕ
  claim now none = now
  claim now (some x) = x

  -- The store between ZADD NX and EXPIRE.
  abbrev pub claimed : ℕ → String → ℕ → ℕ → orders.Store → orders.Store
  claimed user member window now s =
      (zadd_nx (recent_orders user) member now (trim (recent_orders user) window now s)).1

  pub zscore-claimed :
      (user : ℕ) (member : String) (window now : ℕ) (s : orders.Store)
      → zscore (recent_orders user) member now (claimed user member window now s)
        ≡ some (claim now (trimmed window now (zscore (recent_orders user) member now s)))
  zscore-claimed user member window now s =
      let key = recent_orders user in
      let kept = trim key window now s in
      ground (
        arith,
        trim_self key member window now s,
        zadd_nx_lem key member now kept,
        zadd_self key member member now kept,
        same_member_refl member,
      )

  pub recent-check :
      (user : ℕ) (symbol side : String) (qty : Num) (window now : ℕ) (s : State d flags orders)
      → (check_duplicate_order d flags orders user symbol side qty window now s).1.recent
        ≡ orders.expire
            (recent_orders user)
            (window * 2)
            now
            (claimed user (order_member d flags orders symbol side qty) window now s.recent)
  unfolding check_duplicate_order rejected record_violation
  recent-check user symbol side qty window now s = ground arith

  -- After a check the order's score is that of the admission that still counts, for the next
  -- `2 * window` seconds.
  pub zscore-check :
      (user : ℕ) (symbol side : String) (qty : Num) (window now t : ℕ) (s : State d flags orders)
      → now ≤ t
      → let member = order_member d flags orders symbol side qty in
        zscore
          (recent_orders user)
          member
          t
          (check_duplicate_order d flags orders user symbol side qty window now s).1.recent
        ≡ (if leb (now + window * 2) t
            then none
            else some
                (claim now (trimmed window now (zscore (recent_orders user) member now s.recent))))
  zscore-check user symbol side qty window now t s h =
      let member = order_member d flags orders symbol side qty in
      let held = zscore-claimed user member window now s.recent in
      rw (
        recent-check user symbol side qty window now s,
        expire_self _ _ member _ now t _ held h,
        held,
      )

  -- Once `check_duplicate_order` has allowed an order at `now`, the same check at `t` refuses it
  -- while `t < now + window` and allows it from `now + window` on.
  pub duplicate_window :
      (user : ℕ) (symbol side : String) (qty : Num) (window now t : ℕ) (s : State d flags orders)
      → let check = check_duplicate_order d flags orders user symbol side qty window in
        (check now s).0.allowed ≡ true
        → now ≤ t
        → (check t (check now s).1).0.allowed ≡ leb (now + window) t
  duplicate_window user symbol side qty window now t s fresh h =
      let s' = (check_duplicate_order d flags orders user symbol side qty window now s).1 in
      let none_before = (IsFresh-iff d flags orders user symbol side qty window now s).0 fresh in
      let score = zscore-check user symbol side qty window now t s h in
      let again = IsFresh-iff d flags orders user symbol side qty window t s' in
      ground (arith, none_before, score, again.0, again.1)

  -- A refused duplicate does not restart the window: the order is allowed again `window` seconds
  -- after the admission `x` that it repeats.
  pub refused_window :
      (user : ℕ) (symbol side : String) (qty : Num) (window now t x : ℕ) (s : State d flags orders)
      → let member = order_member d flags orders symbol side qty in
        let check = check_duplicate_order d flags orders user symbol side qty window in
        zscore (recent_orders user) member now s.recent ≡ some x
        → x ≤ now
        → now < x + window
        → now ≤ t
        → ((check now s).0.allowed ≡ false)
          × ((check t (check now s).1).0.allowed ≡ leb (x + window) t)
  refused_window user symbol side qty window now t x s before le young h =
      let s' = (check_duplicate_order d flags orders user symbol side qty window now s).1 in
      let first = (IsFresh-iff d flags orders user symbol side qty window now s).0 in
      let score = zscore-check user symbol side qty window now t s h in
      let again = IsFresh-iff d flags orders user symbol side qty window t s' in
      (ground (arith, before, first), ground (arith, before, score, again.0, again.1))

  -- What an allowed action leaves is what its duplicate check leaves.
  validate_action-check :
      (supplied : Bool) (a : Action d flags orders) (now : ℕ) (s : State d flags orders)
      → (validate_action d flags orders supplied a now s).0.allowed ≡ true
      → (validate_action d flags orders supplied a now s).1
        ≡ (check_duplicate_order d flags orders a.user_id a.symbol a.side a.qty a.window_seconds now
            s).1
  unfolding validate_action rejected
  validate_action-check supplied a now s h = ground (arith, limits_keep d flags orders a s)

  -- Once `validate_action` has allowed an action, it refuses every action of that user with the same
  -- order text and window for the rest of the window, whatever the other values are.
  pub validate_action_once :
      (supplied supplied' : Bool) (a b : Action d flags orders) (now t : ℕ)
      (s : State d flags orders)
      → b.user_id ≡ a.user_id
      → order_member d flags orders b.symbol b.side b.qty
        ≡ order_member d flags orders a.symbol a.side a.qty
      → b.window_seconds ≡ a.window_seconds
      → (validate_action d flags orders supplied a now s).0.allowed ≡ true
      → now ≤ t
      → t < now + a.window_seconds
      → (validate_action d flags orders supplied' b t
          (validate_action d flags orders supplied a now s).1).0.allowed
        ≡ false
  validate_action_once supplied supplied' a b now t s user member window allowed h within =
      let s' = (validate_action d flags orders supplied a now s).1 in
      let fresh = ((validate_action_iff d flags orders supplied a now s).0 allowed).2 in
      let same = validate_action-check supplied a now s allowed in
      let score = zscore-check a.user_id a.symbol a.side a.qty a.window_seconds now t s h in
      let again = (validate_action_iff d flags orders supplied' b t s').0 in
      ground (arith, fresh, same, score, again)

  -- A duplicate check of one user's order changes no score in the recent orders of a user with
  -- another key.
  pub check_other_user :
      (user other : ℕ) (symbol side : String) (qty : Num) (window now t : ℕ) (m : String)
      (s : State d flags orders)
      → orders.same (recent_orders user) (recent_orders other) ≡ false
      → zscore
          (recent_orders other)
          m
          t
          (check_duplicate_order d flags orders user symbol side qty window now s).1.recent
        ≡ zscore (recent_orders other) m t s.recent
  check_other_user user other symbol side qty window now t m s differ =
      let key = recent_orders user in
      let j = recent_orders other in
      let member = order_member d flags orders symbol side qty in
      let kept = trim key window now s.recent in
      rw recent-check (
        ground (
          arith,
          expire_other key j m (window * 2) now t (claimed user member window now s.recent) differ,
          zadd_nx_lem key member now kept,
          zadd_other key j member m now t kept differ,
          trim_other key j m window now t s.recent differ,
        ))
