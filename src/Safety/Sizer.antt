-- ===== src/Safety/Sizer.antt =====
-- backend/app/safety/position_sizer.py.
use nivara.Prelude.{Bool, false, if◌then◌else◌}
use nivara.Decimals.{Decimals}

module _ (d : Decimals) where
  open d use {Num, zero, leb, mul, div, quantize_down}

  unfoldable pub max_allowed_qty : Num → Num → Num → Num
  max_allowed_qty portfolio_value price max_position_pct =
      if leb price zero
      then zero
      else quantize_down (div (mul portfolio_value max_position_pct) price)

  unfoldable pub is_within_limit : Num → Num → Num → Bool
  is_within_limit proposed_value portfolio_value max_pct =
      if leb portfolio_value zero then false else leb proposed_value (mul portfolio_value max_pct)
