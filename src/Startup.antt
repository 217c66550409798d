-- ===== src/Startup.antt =====
-- internal/app, internal/database and the constructor of internal/cache: from the environment to a
-- running service.
pub mod Config
pub mod Infra
pub mod Keys
pub mod Connections
pub mod New
pub mod Pair
pub mod Opened
pub mod Outcome
pub mod Serving
