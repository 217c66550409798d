-- ===== src/Repository.antt =====
-- internal/repository: a module for each repository.
pub mod User
pub mod Client
pub mod RefreshToken
pub mod Session
pub mod AuthCode
