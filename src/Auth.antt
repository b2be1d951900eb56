-- ===== src/Auth.antt =====
-- src/auth: passwords, access tokens, refresh tokens, the denylist and the guards.
pub mod Controller
pub mod Config
pub mod Service
pub mod Constants
pub mod Denylist
pub mod RefreshTokens
pub mod Bearer
pub mod Tokens
pub mod Guards
