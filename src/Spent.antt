-- ===== src/Spent.antt =====
-- An authorization code in Redis as time passes, and what the service does once it is gone.
pub mod Keys
pub mod Calls
pub mod Lifetime
pub mod Repositories
pub mod Services
pub mod Steps
pub mod SingleUse
pub mod Expiry
