-- ===== src/Redisdb/Comparator/Separator.antt =====
-- The short keys that BytewiseComparatorImpl makes for index blocks (redisdb/db/dbformat.cc).
use Prim.Native.Nat.{Ordering}
use cpp_swiss_army_knife.Common.{
  ℕ, suc, ◌+◌, ◌%◌, ◌≡◌, ◌≢◌, refl, ap, List, [], ◌∷◌, ◌&&◌, ltb, ◌==◌, if◌then◌else◌, Bool-cases,
  inl, inr, arith,
}
use cpp_swiss_army_knife.Redisdb.Coding.Fixed.{IsBytes}
use cpp_swiss_army_knife.Redisdb.Comparator.{
  IsComparator, compare_bytes, shared_length, bytewise_separator, bytewise_successor, bytewise,
  min_size, separate_at,
}
use cpp_swiss_army_knife.Redisdb.Comparator.Bytewise.{
  compare_bytes_refl, compare_bytes-flip, compare_bytes_congr, compare_bytes_trans,
  compare_bytes→eq,
}

-- The separator by recursion on both keys.
separator : List ℕ → List ℕ → List ℕ
separator [] limit = []
separator (x ∷ start) [] = x ∷ start
separator (x ∷ start) (y ∷ limit) =
    if x == y
    then x ∷ separator start limit
    else if ltb x 0xff && ltb (x + 1) y
    then (x + 1) % 256 ∷ []
    else x ∷ start

min_size_cons : (x y : ℕ) (a b : List ℕ) → min_size (x ∷ a) (y ∷ b) ≡ suc (min_size a b)
unfolding min_size
min_size_cons x y a b = ground arith

separate_at-suc :
    (x y : ℕ) (a b : List ℕ) (m d : ℕ)
    → separate_at (x ∷ a) (y ∷ b) (suc m) (suc d) ≡ x ∷ separate_at a b m d
unfolding separate_at
separate_at-suc x y a b m d = ground arith

separate_at_zero :
    (x y : ℕ) (a b : List ℕ) (m : ℕ)
    → separate_at (x ∷ a) (y ∷ b) (suc m) 0
      ≡ (if ltb x 0xff && ltb (x + 1) y then (x + 1) % 256 ∷ [] else x ∷ a)
unfolding separate_at
separate_at_zero x y a b m = ground arith

bytewise_separator-separator :
    (start limit : List ℕ) → bytewise_separator start limit ≡ separator start limit
unfolding bytewise_separator separator shared_length
bytewise_separator-separator [] limit = unfold separate_at min_size in ground arith
bytewise_separator-separator (x ∷ start) [] = unfold separate_at min_size in ground arith
bytewise_separator-separator (x ∷ start) (y ∷ limit) = elim (Bool-cases (x == y)) [
  | inl e ↦
      rw (e, min_size_cons x y start limit, separate_at-suc)
        (ap (λ t. x ∷ t) (bytewise_separator-separator start limit))
  | inr e ↦ rw (e, min_size_cons x y start limit, separate_at_zero)
]

separator_ge : (a b : List ℕ) → IsBytes a → compare_bytes a (separator a b) ≢ Ordering.gt
unfolding separator compare_bytes
separator_ge [] b h = ground arith
separator_ge (x ∷ a) [] h = ground (arith, compare_bytes_refl a)
separator_ge (x ∷ a) (y ∷ b) h = ground (arith, separator_ge a b, compare_bytes_refl a)

separator_lt :
    (a b : List ℕ) → compare_bytes a b ≡ Ordering.lt → compare_bytes (separator a b) b ≡ Ordering.lt
unfolding separator compare_bytes
separator_lt [] b h = h
separator_lt (x ∷ a) [] h = h
separator_lt (x ∷ a) (y ∷ b) h = ground (arith, separator_lt a b)

separator_self : (a : List ℕ) → separator a a ≡ a
unfolding separator
separator_self [] = refl
separator_self (x ∷ a) = ground (arith, separator_self a)

successor_ge : (a : List ℕ) → IsBytes a → compare_bytes a (bytewise_successor a) ≢ Ordering.gt
unfolding bytewise_successor compare_bytes
successor_ge [] h = ground arith
successor_ge (x ∷ a) h = ground (arith, successor_ge a)

-- BytewiseComparatorImpl meets the contract of Comparator on byte strings: Compare is a total order
-- in which only equal strings compare as equal, FindShortestSeparator(a, b) is between a and b (not
-- before a, and before b) when a is before b, and FindShortSuccessor(a) is not before a.
pub bytewise-IsComparator : IsComparator IsBytes bytewise
bytewise-IsComparator = record {
  compare_refl = compare_bytes_refl;
  compare_eq = λ a b p q h. compare_bytes→eq a b h;
  compare_flip = compare_bytes-flip;
  compare_congr = compare_bytes_congr;
  compare_trans = compare_bytes_trans;
  separator_ge = λ a b p h. rw (bytewise_separator-separator) (separator_ge a b p);
  separator_lt = λ a b p h. rw (bytewise_separator-separator) (separator_lt a b h);
  separator_eq =
      λ a b h. rw (bytewise_separator-separator, ← compare_bytes→eq a b h) (separator_self a);
  successor_ge = successor_ge;
}
