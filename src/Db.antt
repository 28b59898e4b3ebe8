-- ===== src/Db.antt =====
-- The database that the program works on: its tables and the statements over them.
pub mod Schema
pub mod Table
pub mod Statement
