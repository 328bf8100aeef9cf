-- ===== src/Redisdb/Comparator/Tests.antt =====
-- Runs of the bytewise comparator of redisdb/db/dbformat.cc.
use cpp_swiss_army_knife.Common.{◌≡◌, refl, [], ◌∷◌}
use cpp_swiss_army_knife.Redisdb.Comparator.{
  bytewise_separator, bytewise_successor, shared_length, min_size, separate_at,
}

separators :
    (bytewise_separator (b'a' ∷ b'b' ∷ 1 ∷ 2 ∷ []) (b'a' ∷ b'e' ∷ []) ≡ b'a' ∷ b'c' ∷ [])
    × (bytewise_separator (b'a' ∷ b'b' ∷ 1 ∷ []) (b'a' ∷ b'c' ∷ []) ≡ b'a' ∷ b'b' ∷ 1 ∷ [])
    × (bytewise_successor (0xff ∷ b'a' ∷ b'b' ∷ []) ≡ 0xff ∷ b'b' ∷ [])
unfolding bytewise_separator bytewise_successor shared_length min_size separate_at
separators = (refl, refl, refl)
