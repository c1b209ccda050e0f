-- ===== src/Portfolio.antt =====
-- The portfolio of a broker connection: backend/app/services/symbol_mapping.py and
-- backend/app/services/portfolio_sync.py.
pub mod Symbols
pub mod Sync
pub mod Orders
pub mod Connection
pub mod Examples
