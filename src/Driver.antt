-- ===== src/Driver.antt =====
-- embedded/driver.go: the database/sql driver. A connection is the world's Go object; statements
-- and rows are values that an operation takes and gives back.
pub mod Timestamp
pub mod Values
pub mod Conn
pub mod Stmt
pub mod Rows
pub mod Entry
pub mod Sessions
