-- ===== src/Chain.antt =====
-- internal/chain: what the client computes itself, beside the RPC calls.
pub mod GasFee
