-- ===== src/Tools.antt =====
-- internal/tools and internal/server: the write tools of the server.
pub mod Identity
pub mod Dispatch
pub mod Outcome
pub mod Propose
pub mod Revoke
pub mod KeySend
mod Tests
