-- ===== src/Validator.antt =====
-- internal/validator/validator.go, and the validate tags of internal/dtos. The engine behind the
-- tags is go-playground/validator: a parameter, with what it documents of the tags in use.
pub mod RedirectUri
pub mod Rules
pub mod Report
pub mod Reported
pub mod Requests
pub mod Failures
pub mod Accepts
pub mod Form
