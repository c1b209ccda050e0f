-- ===== src/Rates.antt =====
-- Currency rates, positions in a base currency, and benchmark returns:
-- backend/app/services/fx.py, portfolio_summary.py and benchmark.py.
pub mod Fx
pub mod Summary
pub mod Benchmark
mod Examples
