-- ===== src/Lapse.antt =====
-- A login session in Redis as time passes.
pub mod Visits
pub mod Login
pub mod Steps
pub mod Expiry
