-- ===== src/Auth.antt =====
-- Tokens, the session and the route guards of the frontend.
pub mod Token
pub mod Api
pub mod Session
pub mod Guards
mod Tests
