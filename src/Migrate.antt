-- ===== src/Migrate.antt =====
-- cmd/migrate/main.go: the command that migrates the database by goose.
pub mod Goose
pub mod Main
pub mod Done
