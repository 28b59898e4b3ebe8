-- ===== src/Tickets.antt =====
-- internal/tickets/tickets.go
pub mod Money
pub mod Phone
pub mod Reference
pub mod Purchase
pub mod Lifecycle
pub mod History
pub mod Receipts
