-- ===== src/Redisdb/Comparator/Bytewise.antt =====
-- The order of BytewiseComparatorImpl (redisdb/db/dbformat.h).
use Prim.Native.Nat.{Ordering}
use cpp_swiss_army_knife.Common.{ℕ, ◌≡◌, refl, ap, List, [], ◌∷◌, arith}
use cpp_swiss_army_knife.Redisdb.Comparator.{flip, compare_bytes}

pub compare_bytes_refl : (a : List ℕ) → compare_bytes a a ≡ Ordering.eq
unfolding compare_bytes
compare_bytes_refl [] = refl
compare_bytes_refl (x ∷ a) = ground (arith, compare_bytes_refl a)

pub compare_bytes-flip : (a b : List ℕ) → compare_bytes b a ≡ flip (compare_bytes a b)
unfolding compare_bytes
compare_bytes-flip [] [] = refl
compare_bytes-flip [] (y ∷ b) = refl
compare_bytes-flip (x ∷ a) [] = refl
compare_bytes-flip (x ∷ a) (y ∷ b) = ground (arith, compare_bytes-flip a b)

pub compare_bytes→eq : (a b : List ℕ) → compare_bytes a b ≡ Ordering.eq → a ≡ b
unfolding compare_bytes
compare_bytes→eq [] [] h = refl
compare_bytes→eq [] (y ∷ b) h = ground arith
compare_bytes→eq (x ∷ a) [] h = ground arith
compare_bytes→eq (x ∷ a) (y ∷ b) h = ground (arith, compare_bytes→eq a b)

pub compare_bytes_congr :
    (a b d : List ℕ) → compare_bytes a b ≡ Ordering.eq → compare_bytes a d ≡ compare_bytes b d
compare_bytes_congr a b d h = ap (λ x. compare_bytes x d) (compare_bytes→eq a b h)

pub compare_bytes_trans :
    (a b d : List ℕ)
    → compare_bytes a b ≡ Ordering.lt
    → compare_bytes b d ≡ Ordering.lt
    → compare_bytes a d ≡ Ordering.lt
unfolding compare_bytes
compare_bytes_trans [] [] d h k = ground arith
compare_bytes_trans [] (y ∷ b) [] h k = ground arith
compare_bytes_trans [] (y ∷ b) (z ∷ d) h k = refl
compare_bytes_trans (x ∷ a) [] d h k = ground arith
compare_bytes_trans (x ∷ a) (y ∷ b) [] h k = ground arith
compare_bytes_trans (x ∷ a) (y ∷ b) (z ∷ d) h k = ground (arith, compare_bytes_trans a b d)
