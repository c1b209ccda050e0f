-- ===== src/Scheduler.antt =====
-- backend/app/scheduling/scheduler.py: the session-aware scheduler that Celery Beat ticks.
pub mod Plan
pub mod Market
pub mod Cadence
pub mod Dispatch
pub mod Runs
pub mod Examples
