-- ===== src/Auth.antt =====
-- backend/app/auth.py and backend/app/routes/auth.py: passwords, access tokens, and who a request is from.
pub mod Password
pub mod Token
pub mod Guards
pub mod Accounts
pub mod Valid
pub mod Revoked
pub mod Registered
pub mod Toys
mod Tests
