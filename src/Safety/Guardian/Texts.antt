-- ===== src/Safety/Guardian/Texts.antt =====
-- Orders with different texts in the duplicate check.
use nivara.Prelude.{
  ℕ, ◌*◌, ◌≤◌, String, ◌≡◌, Bool, true, false, Option, none, some, arith, if◌then◌else◌,
}
use nivara.Decimals.{Decimals}
use nivara.Redis.Values.{Values}
use nivara.Redis.Scores.{Scores, trimmed}
use nivara.Safety.KillSwitch.{FlagKey}
use nivara.Safety.Guardian.{OrdersKey, recent_orders, State, check_duplicate_order, order_member}
use nivara.Safety.Guardian.Limits.{IsFresh-iff}
use nivara.Safety.Guardian.Window.{claimed, zscore-claimed, recent-check}

-- What counts in no window at `t` does not count behind an earlier trim either.
still_free :
    (window now t : ℕ) (x : Option ℕ) (gone : Bool)
    → trimmed window t x ≡ none
    → trimmed window t (if gone then none else trimmed window now x) ≡ none
still_free window now t none gone free = ground arith
still_free window now t (some x) gone free = ground (arith, free)

module _ (d : Decimals) (flags : Values FlagKey String) (orders : Scores OrdersKey String) where
  open d use {Num}
  open orders use {zscore, trim, zadd_nx_lem, zadd_self, trim_self, expire_self}

  zscore-claimed_other :
      (user : ℕ) (member other : String) (window now : ℕ) (s : orders.Store)
      → orders.same_member member other ≡ false
      → zscore (recent_orders user) other now (claimed d flags orders user member window now s)
        ≡ trimmed window now (zscore (recent_orders user) other now s)
  zscore-claimed_other user member other window now s differ =
      let key = recent_orders user in
      let kept = trim key window now s in
      ground (
        arith,
        differ,
        trim_self key other window now s,
        zadd_nx_lem key member now kept,
        zadd_self key member other now kept,
      )

  -- An order whose text differs from that of a checked one is not a duplicate of it: it is allowed
  -- at any later time at which its own text counts in no window.
  pub other_text_passes :
      (user : ℕ) (symbol side other_symbol other_side : String) (qty other_qty : Num)
      (window now t : ℕ) (s : State d flags orders)
      → orders.same_member
          (order_member d flags orders symbol side qty)
          (order_member d flags orders other_symbol other_side other_qty)
        ≡ false
      → now ≤ t
      → trimmed window t (
          zscore
            (recent_orders user)
            (order_member d flags orders other_symbol other_side other_qty)
            now
            s.recent)
        ≡ none
      → (check_duplicate_order d flags orders user other_symbol other_side other_qty window t
          (check_duplicate_order d flags orders user symbol side qty window now s).1).0.allowed
        ≡ true
  other_text_passes user symbol side other_symbol other_side qty other_qty window now t s differ h
        free =
      let member = order_member d flags orders symbol side qty in
      let other = order_member d flags orders other_symbol other_side other_qty in
      let s' = (check_duplicate_order d flags orders user symbol side qty window now s).1 in
      let mine = zscore-claimed d flags orders user member window now s.recent in
      let theirs = zscore-claimed_other user member other window now s.recent differ in
      let shown =
        expire_self (recent_orders user) member other (window * 2) now t
          (claimed d flags orders user member window now s.recent) mine h in
      let kept = recent-check d flags orders user symbol side qty window now s in
      let again = IsFresh-iff d flags orders user other_symbol other_side other_qty window t s' in
      again.1 (rw (kept, shown, theirs) (still_free window now t _ _ free))
