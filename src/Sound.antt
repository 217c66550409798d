-- ===== src/Sound.antt =====
-- What the stored authorization codes are bound to: an S256 challenge and an admissible
-- redirect_uri.
pub mod Stored
pub mod Requests
pub mod History
