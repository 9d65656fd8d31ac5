-- ===== src/Server.antt =====
-- internal/server: the arguments that a tool reads from a request, and the registry of the tools.
pub mod Args
pub mod Registry
