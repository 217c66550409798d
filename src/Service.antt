-- ===== src/Service.antt =====
-- internal/service: a module for each service, over the ports of internal/service/ports.go.
pub mod Token
pub mod Client
pub mod Auth
pub mod TokenGrant
