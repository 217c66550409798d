-- ===== src/Stable.antt =====
-- Properties of the state that the calls keep which store no authorization code and no session, and
-- those that the storing of sessions keeps too.
pub mod Defs
pub mod Repositories
pub mod Services
pub mod Handlers
