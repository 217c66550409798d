-- ===== src/App/Panics.antt =====
-- No request makes the service dereference a nil pointer: the repositories, then the services.
mod Repositories
pub mod Services
