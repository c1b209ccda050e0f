-- ===== src/Safety/RiskGuardian/Macro/Fanout.antt =====
-- Which users hear of which changes (backend/app/safety/risk_guardian.py).
use nivara.Prelude.{ℕ, ◌+◌, ◌*◌, ◌&&◌, List, [], ◌∷◌, ◌++◌, ◌≡◌, ◌==◌, if◌then◌else◌, arith, length}
use nivara.Floats.{Floats}
use nivara.Safety.RiskGuardian.{AlertEvent}
use nivara.Safety.RiskGuardian.Macro.{User, Change, alerts_for, macro_alerts}

-- How many alerts the user gets.
abbrev pub alerts_to : {F : Type 0} → ℕ → List (AlertEvent F) → ℕ
alerts_to user_id [] = 0
alerts_to user_id (a ∷ alerts) = (if a.user_id == user_id then 1 else 0) + alerts_to user_id alerts

-- How many rows of active users have the id.
abbrev pub active_rows : ℕ → List User → ℕ
active_rows user_id [] = 0
active_rows user_id (user ∷ users) =
    (if (user.id == user_id) && user.is_active then 1 else 0) + active_rows user_id users

pub alerts_to-append :
    {F : Type 0} (u : ℕ) (xs ys : List (AlertEvent F))
    → alerts_to u (xs ++ ys) ≡ alerts_to u xs + alerts_to u ys
alerts_to-append u [] ys = omega arith
alerts_to-append u (x ∷ xs) ys = omega (arith, alerts_to-append u xs ys)

module _ (f : Floats) where
  open f use {Num}

  alerts_to-alerts_for :
      (u id : ℕ) (changes : List (Change Num))
      → alerts_to u (alerts_for f id changes) ≡ (if id == u then length changes else 0)
  alerts_to-alerts_for u id [] = ground arith
  alerts_to-alerts_for u id (c ∷ changes) = ground (arith, alerts_to-alerts_for u id changes)

  -- A user gets one macro alert for each change that was found and each row of an active user with
  -- their id; so, with the id as the key of the table, an active user gets one alert for each
  -- change, and any other user none.
  pub macro_alerts-users :
      (u : ℕ) (users : List User) (changes : List (Change Num))
      → alerts_to u (macro_alerts f users changes) ≡ active_rows u users * length changes
  unfolding macro_alerts
  macro_alerts-users u [] changes = omega arith
  macro_alerts-users u (user ∷ users) changes = grind (
    arith,
    alerts_to-append u (alerts_for f user.id changes) (macro_alerts f users changes),
    alerts_to-alerts_for u user.id changes,
    macro_alerts-users u users changes,
  )
