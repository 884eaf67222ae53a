-- ===== src/Domain.antt =====
-- internal/domain: the types, the errors and the rules that every layer shares.
pub mod Errors
pub mod Types
pub mod Status
pub mod Transitions
pub mod Dates
pub mod Paging
pub mod Pages
