-- ===== src/Redisdb.antt =====
-- The store of redisdb/db: a log-structured key-value store with the Redis types on top.
pub mod Coding
pub mod Comparator
pub mod Format
pub mod WriteBatch
pub mod Serialize
pub mod Snapshot
pub mod VersionEdit
pub mod Log
pub mod Block
pub mod Logging
pub mod Filename
pub mod WritableFile
pub mod Table
pub mod CurrentFile
