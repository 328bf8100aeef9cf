-- ===== src/Redisdb/Snapshot/Tests.antt =====
-- A run of the list of snapshots of redisdb/db, and the theorem at it.
use cpp_swiss_army_knife.Common.{◌≡◌, refl, [], none, some, true}
use cpp_swiss_army_knife.Redisdb.Snapshot.{
  Snapshot, empty, oldest, newest, is_newer, new_snapshot, Reached, fresh, taken, oldest-Reached,
}

abbrev seven : Snapshot
seven = record { sequencenumber = 7 }

new_snapshot_run : new_snapshot [] 7 ≡ some ([], seven)
unfolding new_snapshot is_newer newest
new_snapshot_run = refl

-- A snapshot is taken, and held.
held : Reached []
held = taken 7 seven fresh new_snapshot_run

oldest-Reached_example : (empty [] ≡ true) × (oldest [] ≡ none)
oldest-Reached_example = oldest-Reached [] held
