-- ===== src/User.antt =====
-- The user library of lib/.
pub mod Ipc
pub mod Fork
pub mod Primes
pub mod Stubs
