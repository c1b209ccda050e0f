-- ===== src/Corporate.antt =====
-- backend/app/services/corporate_actions.py: splits, their detection and the adjustment of the price
-- history.
pub mod Actions
pub mod Detect
pub mod Apply
mod Examples
