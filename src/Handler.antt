-- ===== src/Handler.antt =====
-- internal/handler and internal/httpx: requests, responses and the handlers.
pub mod Response
pub mod Ports
pub mod Params
pub mod Token
pub mod TokenError
pub mod Auth
pub mod Next
pub mod Redirect
pub mod Uncached
pub mod Session
