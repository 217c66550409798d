-- ===== src/Platform.antt =====
-- What the program calls and does not implement: MySQL, Redis, the clock and the randomness of the
-- host, and the cryptographic libraries. Each is a record of operations over a state of its own;
-- the laws that the program relies on are records beside it.
mod Kv
mod Db
mod Os
mod Systems
mod Tokens
pub use Kv.*
pub use Db.*
pub use Os.*
pub use Tokens.*
unfoldable pub use Systems.*
