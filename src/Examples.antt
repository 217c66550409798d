-- ===== src/Examples.antt =====
-- The theorems at concrete inputs, on a platform in memory.
mod Memory
mod Laws
mod Flow
mod Clients
mod Life
mod Lapse
mod Handlers
mod Web
mod Server
mod Browser
mod Startup
mod Shelf
mod Tokens
mod Columns
mod Migrate
