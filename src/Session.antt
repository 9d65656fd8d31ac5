-- ===== src/Session.antt =====
-- internal/session/: the sessions that let an agent write under a master account: the resolution of
-- a session's scope, and the manager that keeps, picks and charges sessions.
pub mod Coins
pub mod Scope
pub mod Manager
pub mod Gnokey
pub mod Store
mod Tests
