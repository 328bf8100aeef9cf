-- ===== src/Memcached.antt =====
-- The memcached server of memcached/server: items, the store of items that every connection shares,
-- and the protocol of one connection.
pub mod Item
pub mod Store
pub mod Request
pub mod World
pub mod Session
mod Tests
