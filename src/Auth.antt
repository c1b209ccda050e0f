-- ===== src/Auth.antt =====
-- Accounts and tokens: backend/app/services/auth.py, backend/app/auth and the users table.
pub mod Users
pub mod Config
pub mod Jwt
pub mod Service
pub mod Examples
