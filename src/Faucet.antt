-- ===== src/Faucet.antt =====
-- faucet/: the testnet faucet service, from its rate limiter to its HTTP answers.
pub mod Float64
pub mod Limiter
pub mod Fund
pub mod Dispense
pub mod Service
pub mod Http
mod Tests
