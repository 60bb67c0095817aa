-- ===== src/Pitr.antt =====
-- The operations of the server: internal/server/pitr.
pub mod State
pub mod Preview
pub mod Operations
pub mod Store
pub mod Events
pub mod Calls
pub mod Stream
pub mod Filters
pub mod Requests
mod Tests
