-- ===== src/Shifts.antt =====
-- internal/shifts/shifts.go
pub mod PinLimiter
pub mod Lifecycle
pub mod Cash
pub mod StaffList
