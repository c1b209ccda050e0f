-- ===== src/Safety/Decision.antt =====
-- What the safety checks answer (`SafetyDecision` of backend/app/schemas/safety.py), the violation
-- codes and messages of backend/app/safety/guardian.py, and the state that the checks share.
use nivara.Prelude.{ℕ, String, Bool, true, false, Option, none, some}

pub data Code : Type 0 where
  position_size daily_loss max_drawdown duplicate_order kill_switch : Code

-- The message of a rejection, with the values that its f-string formats.
pub data Reason (Num : Type 0) : Type 0 where
  portfolio_zero kill_switch_active : Reason Num
  position_exceeds daily_loss_breached drawdown_breached : Num → Num → Reason Num
  duplicate : String → String → Num → ℕ → Reason Num

-- The audit details, with the values converted by `_to_float`; `nothing` is the empty dict.
pub data Details (Float : Type 0) : Type 0 where
  nothing : Details Float
  position : ℕ → Float → Float → Float → Option Float → Details Float
  loss : Float → Float → Float → Float → Details Float
  drawdown : Float → Float → Float → Float → Details Float
  order : String → String → Float → ℕ → ℕ → Details Float

pub record SafetyDecision (Num Float : Type 0) : Type 0 where
  pub allowed : Bool
  pub reason : Option (Reason Num)
  pub code : Option Code
  pub details : Option (Details Float)

abbrev pub allow : {Num Float : Type 0} → SafetyDecision Num Float
allow = record { allowed = true; reason = none; code = none; details = none }

abbrev pub reject :
    {Num Float : Type 0} → Code → Reason Num → Details Float → SafetyDecision Num Float
reject code reason details = record {
  allowed = false;
  reason = some reason;
  code = some code;
  details = some details;
}

-- The `event_data` of an audit row.
pub data EventData (Num Float : Type 0) : Type 0 where
  violation : Code → Reason Num → Details Float → EventData Num Float
  active : Bool → EventData Num Float

abbrev pub event_safety_violation : String
event_safety_violation = "safety.violation"
