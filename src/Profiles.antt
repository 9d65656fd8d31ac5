-- ===== src/Profiles.antt =====
-- internal/profiles/: the chain profiles, what kind of chain each one names, the limits of the
-- sessions under it, and the validation of a configuration.
pub mod Formats
pub mod Profile
pub mod Config
pub mod Shell
pub mod Safety
mod Tests
