-- ===== src/Shelf.antt =====
-- What internal/repository/auth_code.go promises, apart from Redis: a shelf of single-use codes.
pub mod Spec
pub mod Represents
pub mod Consumed
pub mod Refines
