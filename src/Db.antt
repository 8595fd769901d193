-- ===== src/Db.antt =====
-- ii/db.go, the message database: a bundle file, its index file, and the index in memory.
pub mod Index
pub mod State
pub mod Load
pub mod Access
pub mod Log
pub mod Query
pub mod Select
pub mod Lock
pub mod Areas
pub mod Topics
pub mod Tests
