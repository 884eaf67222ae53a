-- ===== src/Store.antt =====
-- internal/repository: one module for each repository, over the monad of statements.
pub mod Monad
pub mod Orders
pub mod Items
pub mod Logs
pub mod Outbox
pub mod Triple
pub mod Reads
pub mod Writes
pub mod Exact
pub mod Total
pub mod Refusal
pub mod Present
pub mod Pool
pub mod Rearranged
pub mod Listing
