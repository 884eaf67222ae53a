-- ===== src/Handler.antt =====
-- internal/handler: the HTTP handlers of orders and of their synchronisation.
pub mod Response
pub mod Params
pub mod Orders
pub mod Sync
pub mod Errors
pub mod Health
pub mod Docs
pub mod BodyLimit
