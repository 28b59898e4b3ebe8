-- ===== src/Pumps.antt =====
-- internal/pumps/pumps.go
pub mod Board
pub mod Assignment
pub mod Admin
