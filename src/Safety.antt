-- ===== src/Safety.antt =====
-- The safety layer: backend/app/safety and backend/app/services/audit.py.
pub mod Audit
pub mod Decision
pub mod KillSwitch
pub mod Sizer
pub mod Guardian
pub mod AuditQuery
pub mod RiskGuardian
pub mod Examples
