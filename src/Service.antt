-- ===== src/Service.antt =====
-- internal/service: the operations of the API on orders and on their synchronisation.
pub mod Orders
pub mod Sync
pub mod Queries
pub mod Closed
pub mod Refused
