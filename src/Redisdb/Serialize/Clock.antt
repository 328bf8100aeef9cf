-- ===== src/Redisdb/Serialize/Clock.antt =====
-- Timestamps and versions of redisdb/db/serialize.h, which are int32_t compared with time(0).
use cpp_swiss_army_knife.Common.{
  ℕ, ◌+◌, ◌%◌, ◌^◌, ◌≤◌, ◌<◌, ◌≡◌, Bool, true, false, ltb, leb, ◌==◌, if◌then◌else◌, arith,
}

-- a < b and a <= b on int32_t: the sign bit is flipped and the patterns compared.
abbrev pub biased : ℕ → ℕ
biased a = (a + 2 ^ 31) % 2 ^ 32

-- An int32_t against a time_t that is not negative.
unfoldable pub int32_before : ℕ → ℕ → Bool
int32_before a now = if ltb a (2 ^ 31) then ltb a now else true

-- IsStale: 0 stands for a value that never expires.
unfoldable pub is_stale : ℕ → ℕ → Bool
is_stale timestamp now = if timestamp == 0 then false else int32_before timestamp now

-- SetRelativeTimestamp: the sum is narrowed to int32_t. A negative ttl is its bit pattern.
unfoldable pub relative_timestamp : ℕ → ℕ → ℕ
relative_timestamp now ttl = (now + ttl) % 2 ^ 32

-- UpdateVersion of BaseMetaValue and ParsedBaseMetaValue: the comparison is made in int64_t.
unfoldable pub update_version : ℕ → ℕ → ℕ
update_version version now =
    if int32_before version now then now % 2 ^ 32 else (version + 1) % 2 ^ 32

-- UpdateVersion of the list classes: the time is narrowed before the comparison.
unfoldable pub update_list_version : ℕ → ℕ → ℕ
update_list_version version now =
    if leb (biased (now % 2 ^ 32)) (biased version) then (version + 1) % 2 ^ 32 else now % 2 ^ 32

-- While the clock and the old version plus one are below 2^31, UpdateVersion gives a version above
-- the old one and not below the clock, and the metadata of lists and of the other types agree on
-- it.
pub update_version_grows :
    (version now : ℕ)
    → now < 2 ^ 31
    → version + 1 < 2 ^ 31
    → (version < update_version version now)
      × (now ≤ update_version version now)
      × (update_list_version version now ≡ update_version version now)
unfolding update_version update_list_version int32_before
update_version_grows version now h k = (ground arith, ground arith, ground arith)

-- A value that was given a positive time to live at time now is stale at a later time exactly when
-- now plus the time to live is before it, while the sum is below 2^31.
pub relative_timestamp_stale :
    (now ttl later : ℕ)
    → 0 < ttl
    → now + ttl < 2 ^ 31
    → is_stale (relative_timestamp now ttl) later ≡ ltb (now + ttl) later
unfolding is_stale relative_timestamp int32_before
relative_timestamp_stale now ttl later h k =
    let e : (now + ttl) % 2 ^ 32 ≡ now + ttl = omega arith in rw e (ground arith)
