-- ===== src/Redisdb/Serialize.antt =====
-- redisdb/db/serialize.h: how the Redis types lie in the key-value store: the values behind a string,
-- a hash, a set, a sorted set or a list, and the keys of their elements.
--
-- An int32_t is its bit pattern, a number below 2 ^ 32, and a double is the uint64_t that its bytes
-- are copied into. time(0) is the parameter `now`.
pub mod Clock
pub mod Strings
pub mod Base
pub mod Lists
pub mod DataKey
mod Tests
