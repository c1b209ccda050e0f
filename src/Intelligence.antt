-- ===== src/Intelligence.antt =====
-- backend/app/intelligence/: how old data lowers or suppresses a recommendation, and how the engines'
-- scores become one.
pub mod Staleness
pub mod Explainers
pub mod Engines
pub mod Synthesizer
pub mod FxAttribution
pub mod Portfolio
mod Examples
mod Tests
