-- ===== src/Redisdb/Block/Search.antt =====
-- BlockIterator::Seek (redisdb/db/block.cc) on a block that BlockBuilder wrote.
use Prim.Native.Nat.{Ordering}
use cpp_swiss_army_knife.Common.{
  ℕ, zero, suc, ◌^◌, ◌<◌, ◌≡◌, ◌≢◌, inl, inr, refl, sym, ap, ◌∙◌, subst, List, [], ◌∷◌, ◌++◌, map,
  Option, some, Bool, true, false, ◌&&◌, Bool-cases, arith, length, length-map,
}
use cpp_swiss_army_knife.Redisdb.Block.Iterator.{
  BlockIterator, parse_next_key, is_before, search_entries,
}
use cpp_swiss_army_knife.Redisdb.Block.Layout.{Item, KeyValue, key_value, encoded}
use cpp_swiss_army_knife.Redisdb.Block.RoundTrip.{read_all, read_all-next, at_the_end, read_all_end}
use cpp_swiss_army_knife.Redisdb.Block.Scan.{
  Standing, Reads, parse_next_key_end, parse_next_key-Reads,
}
use cpp_swiss_army_knife.Redisdb.Coding.{ByteOrder}
use cpp_swiss_army_knife.Redisdb.Comparator.{Comparator}

module _ (cmp : Comparator) (target : List ℕ) where
  abbrev pub AllBefore : List KeyValue → Type 0
  AllBefore [] = Unit {0}
  AllBefore (e ∷ es) = (cmp.compare e.0 target ≡ Ordering.lt) × AllBefore es

  abbrev pub StartsAtLeast : List KeyValue → Type 0
  StartsAtLeast [] = Unit {0}
  StartsAtLeast (e ∷ es) = cmp.compare e.0 target ≢ Ordering.lt

  AllBefore-last :
      (xs : List KeyValue) (e : KeyValue)
      → AllBefore xs
      → cmp.compare e.0 target ≡ Ordering.lt
      → AllBefore (xs ++ e ∷ [])
  AllBefore-last [] e h c = (c, tt)
  AllBefore-last (x ∷ xs) e h c = (h.0, AllBefore-last xs e h.1 c)

-- What the test of Seek says of a comparison.
abbrev pub is_lt : Ordering → Bool
is_lt Ordering.lt = true
is_lt _ = false

pub is_lt-true : (o : Ordering) → is_lt o ≡ true → o ≡ Ordering.lt
is_lt-true Ordering.lt h = refl
is_lt-true Ordering.eq h = ground arith
is_lt-true Ordering.gt h = ground arith

is_lt-false : (o : Ordering) → is_lt o ≡ false → o ≢ Ordering.lt
is_lt-false o h e = ground arith

pub map-append :
    (xs ys : List Item) → map key_value (xs ++ ys) ≡ map key_value xs ++ map key_value ys
map-append [] ys = refl
map-append (x ∷ xs) ys = ap (λ (t : List KeyValue). key_value x ∷ t) (map-append xs ys)

module _ (host : ByteOrder) (cmp : Comparator) (target : List ℕ) where
  -- The iterator stands at the first entry whose key is not before the target, or behind the last one.
  abbrev pub Found : List KeyValue → BlockIterator → Type 0
  Found es it =
      (xs : List KeyValue) × ((ys : List KeyValue) × (es ≡ xs ++ ys)
        × AllBefore cmp target xs
        × StartsAtLeast cmp target ys
        × (read_all host (suc (length ys)) it ≡ some ys))

  abbrev pub Finds : List KeyValue → Option BlockIterator → Type 0
  Finds es o = (it : BlockIterator) × (o ≡ some it) × Found es it

  entries_stop :
      (fuel : ℕ) (it : BlockIterator)
      → ((parse_next_key host it).0 && is_before host cmp (parse_next_key host it).1.k target)
        ≡ false
      → search_entries host cmp (suc fuel) it target ≡ some (parse_next_key host it).1
  unfolding search_entries
  entries_stop fuel it c = rw (c, search_entries) refl

  entries_more :
      (fuel : ℕ) (it : BlockIterator)
      → ((parse_next_key host it).0 && is_before host cmp (parse_next_key host it).1.k target)
        ≡ true
      → search_entries host cmp (suc fuel) it target
        ≡ search_entries host cmp fuel (parse_next_key host it).1 target
  unfolding search_entries
  entries_more fuel it c = rw (c, search_entries) refl

  module _ (items : List Item) (tail : List ℕ) (small : length (encoded items) < 2 ^ 32) where
    test_at :
        (it : BlockIterator) (before : List Item) (i : Item) (rest : List Item)
        → Reads items tail small host it before i rest (parse_next_key host it)
        → ((parse_next_key host it).0 && is_before host cmp (parse_next_key host it).1.k target)
          ≡ is_lt (cmp.compare i.1 target)
    test_at it before i rest r =
        ap (λ (b : Bool). b && is_before host cmp (parse_next_key host it).1.k target) r.0
        ∙ ap (λ (k : List ℕ). is_lt (cmp.compare k target)) r.1

    pub search_entries-Finds :
        (rest : List Item) (it : BlockIterator) (before : List Item) (fuel : ℕ)
        → Standing items tail small it before rest
        → AllBefore cmp target (map key_value before)
        → length rest < fuel
        → Finds (map key_value items) (search_entries host cmp fuel it target)
    search_entries-Finds rest it before zero s a h = absurd (omega arith)
    search_entries-Finds [] it before (suc fuel) s a h =
        let stop : (parse_next_key host it).0 ≡ false =
          ap (λ (p : Bool × BlockIterator). p.0)
            (parse_next_key_end items tail small host it before s) in
        (
          (parse_next_key host it).1,
          entries_stop fuel it
              (ap (λ (b : Bool). b && is_before host cmp (parse_next_key host it).1.k target) stop),
          (
            map key_value before,
            (
              [],
              ap (λ (t : List Item). map key_value t) s.0 ∙ map-append before [],
              a,
              tt,
              read_all_end host 0 (parse_next_key host it).1
                  (at_the_end host items tail small it before s),
            ),
          ),
        )
    search_entries-Finds (i ∷ rest) it before (suc fuel) s a h =
        let r = parse_next_key-Reads items tail small host it before i rest s in
        let test = test_at it before i rest r in
        let it' = (parse_next_key host it).1 in
        elim (Bool-cases (is_lt (cmp.compare i.1 target))) [
          | inl e ↦
              let lt = is_lt-true (cmp.compare i.1 target) e in
              subst (Finds (map key_value items)) (sym (entries_more fuel it (test ∙ e))) (
                search_entries-Finds rest it' (before ++ i ∷ []) fuel r.4
                  (subst (AllBefore cmp target) (sym (map-append before (i ∷ [])))
                    (AllBefore-last cmp target (map key_value before) (key_value i) a lt))
                  (omega arith))
          | inr e ↦ (
            it',
            entries_stop fuel it (test ∙ e),
            (
              map key_value before,
              (
                map key_value (i ∷ rest),
                ap (λ (t : List Item). map key_value t) s.0 ∙ map-append before (i ∷ rest),
                a,
                is_lt-false (cmp.compare i.1 target) e,
                read_all-next host items tail small (i ∷ rest) it before
                    (suc (length (map key_value (i ∷ rest)))) s
                    (omega (arith, length-map (i ∷ rest) key_value)),
              ),
            ),
          )
        ]
