-- ===== src/Analysis.antt =====
-- backend/app/analysis/risk_meter.py and health_score.py: scores between 0 and 100 that are blended from
-- components. Series of prices and returns are computed by pandas and enter as their statistics.
pub mod Meter
pub mod RiskMeter
pub mod HealthScore
mod Examples
