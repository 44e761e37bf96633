-- ===== src/Tests.antt =====
-- Examples: each theorem with hypotheses, applied to a small machine or to short texts.
pub mod Data
pub mod Memory
pub mod Envs
pub mod Text
pub mod Idle
pub mod Devices
pub mod Loading
pub mod Symbols
pub mod Format
pub mod Turns
pub mod Sieve
pub mod Booting
pub mod SelfTests
pub mod Calls
pub mod Forking
pub mod Children
