-- ===== src/Redisdb/Block/Seek.antt =====
-- BlockIterator::Seek (redisdb/db/block.cc): its binary search over the restart points, and the
-- whole of it, on a block that BlockBuilder wrote.
use Prim.Native.Nat.{Ordering}
use cpp_swiss_army_knife.Common.{
  ℕ, zero, suc, ◌+◌, ◌-◌, ◌*◌, ◌^◌, ◌≤◌, ◌<◌, ◌≡◌, ◌⊎◌, inl, inr, refl, sym, ap, ◌∙◌, subst, List,
  [], ◌∷◌, ◌++◌, map, Option, some, Bool, true, false, Bool-cases, arith, ltb, ◌==◌, length, take,
  drop, get_or, take-length, length-append,
}
use cpp_swiss_army_knife.Redisdb.Block.{BlockBuilder, new_builder, finish}
use cpp_swiss_army_knife.Redisdb.Block.Built.{Built, IsAscending, add_all, adds_from_new}
use cpp_swiss_army_knife.Redisdb.Block.Decode.{entry_bytes}
use cpp_swiss_army_knife.Redisdb.Block.Finished.{start_of, new_iterator-finish}
use cpp_swiss_army_knife.Redisdb.Block.Iterator.{
  decode_entry, until_limit, BlockIterator, over, new_block, new_iterator, get_restart_point,
  seek_to_restart_point, search_restarts, seek,
}
use cpp_swiss_army_knife.Redisdb.Block.Layout.{
  Item, KeyValue, key_value, encoded, Chained, IsPoint, weight,
}
use cpp_swiss_army_knife.Redisdb.Block.RoundTrip.{
  entries_small, restarts_some, footer_of, first, first-Over, restart_point, seek_first-Standing,
  short_keys,
}
use cpp_swiss_army_knife.Redisdb.Block.Scan.{
  ShortKeys, Standing, sizes, decoded, entry_of, length-entry,
}
use cpp_swiss_army_knife.Redisdb.Block.Search.{
  AllBefore, is_lt, is_lt-true, Finds, search_entries-Finds,
}
use cpp_swiss_army_knife.Redisdb.Coding.{ByteOrder}
use cpp_swiss_army_knife.Redisdb.Comparator.{Comparator, IsComparator}
use cpp_swiss_army_knife.Redisdb.Block.Halving.{
  Chained-behind, ShortKeys-behind, All-get_or, before_target, search_done, middle, half,
  search_half, middle_bounds,
}

-- A block of ascending keys.
module _ {P : List ℕ → Type 0} (host : ByteOrder) (cmp : Comparator) (contract : IsComparator P cmp)
    (interval : ℕ) (positive : 1 ≤ interval) (b : BlockBuilder) (items : List Item)
    (built : Built cmp interval positive b items)
    (small : length b.buffer + 4 * length b.restarts + 4 < 2 ^ 32) (short : ShortKeys items)
    (target : List ℕ) where
  abbrev it0 : BlockIterator
  it0 = first host cmp interval positive b items built small

  below : length (encoded items) < 2 ^ 32
  below = entries_small host cmp interval positive b items built small

  abbrev footer0 : List ℕ
  footer0 = footer_of host cmp interval positive b items built small

  -- A restart point whose key is before the target.
  abbrev IsBelow : ℕ → Type 0
  IsBelow left =
      (before : List Item) × ((i : Item) × ((after : List Item) × (items ≡ before ++ i ∷ after)
          × (get_restart_point host it0 left ≡ length (encoded before))
          × (i.0 ≡ 0)
          × (cmp.compare i.1 target ≡ Ordering.lt)))

  abbrev IsLeft : ℕ → Type 0
  IsLeft left = (left ≡ 0) ⊎ IsBelow left

  IsPoint-at :
      (m : ℕ) → 1 ≤ m → m < length b.restarts → IsPoint items (get_restart_point host it0 m)
  IsPoint-at zero p h = absurd (omega arith)
  IsPoint-at (suc m) p h =
      let rs = built.5.0 in
      let read : get_restart_point host it0 (suc m) ≡ get_or rs m 0 =
        restart_point host cmp interval positive b items built small (suc m) h
        ∙ ap (λ (t : List ℕ). get_or t (suc m) 0) built.5.1 in
      subst (IsPoint items) (sym read)
        (All-get_or (IsPoint items) rs m built.5.2 (omega (arith, ap length built.5.1)))

  -- What the entry at a restart point decodes to.
  abbrev Decodes : ℕ → Item → List Item → Type 0
  Decodes off i after =
      decode_entry (until_limit it0 off) ≡ some (entry_of items footer0 below i after)

  Decodes-at :
      (off : ℕ) (before : List Item) (i : Item) (after : List Item)
      → items ≡ before ++ i ∷ after
      → off ≡ length (encoded before)
      → Decodes off i after
  Decodes-at off before i after e h =
      let chain =
        Chained-behind before [] i after (subst (λ (t : List Item). Chained [] t) e built.4) in
      let keys =
        ShortKeys-behind before (i ∷ after) (subst (λ (t : List Item). ShortKeys t) e short) in
      decoded items footer0 below it0 before i after off e
        (first-Over host cmp interval positive b items built small) h chain.0 keys.0

  whole_key :
      (i : Item) (after : List ℕ) → i.0 ≡ 0 → take (length i.1 - i.0) (drop i.0 i.1 ++ after) ≡ i.1
  whole_key i after z =
      let size : length i.1 - 0 ≡ length i.1 = omega arith in
      ap (λ (n : ℕ). take (length i.1 - n) (drop n i.1 ++ after)) z
      ∙ ap (λ (n : ℕ). take n (i.1 ++ after)) size
      ∙ take-length i.1 after

  abbrev Searches : Option (Option ℕ) → Type 0
  Searches o = (l : ℕ) × (o ≡ some (some l)) × (l < length b.restarts) × IsLeft l

  -- A round of the search: the key at the middle, and the half that is left.
  round_at :
      (fuel left right : ℕ) (before : List Item) (i : Item) (after : List Item) (c : Bool)
      → left < right
      → items ≡ before ++ i ∷ after
      → get_restart_point host it0 (middle host cmp it0 target left right) ≡ length (encoded before)
      → i.0 ≡ 0
      → is_lt (cmp.compare i.1 target) ≡ c
      → search_restarts host cmp (suc fuel) it0 target left right
        ≡ half host cmp it0 target fuel left right c
  round_at fuel left right before i after c l e off z t =
      let m = middle host cmp it0 target left right in
      let entry = entry_of items footer0 below i after in
      let lt : ltb left right ≡ true = ground arith in
      let zero_shared : (entry.shared == 0) ≡ true = ground (arith, z) in
      search_half host cmp it0 target fuel left right entry lt
        (Decodes-at (get_restart_point host it0 m) before i after e off) zero_shared
      ∙ ap (λ (k : List ℕ). half host cmp it0 target fuel left right (is_lt (cmp.compare k target)))
          (whole_key i (i.2 ++ encoded after) z)
      ∙ ap (half host cmp it0 target fuel left right) t

  search_restarts-Searches :
      (fuel left right : ℕ)
      → left ≤ right
      → right < length b.restarts
      → right < left + fuel
      → IsLeft left
      → Searches (search_restarts host cmp fuel it0 target left right)
  search_restarts-Searches zero left right o r f w = absurd (omega arith)
  search_restarts-Searches (suc fuel) left right o r f w = elim (Bool-cases (ltb left right)) [
    | inr e ↦ (left, search_done host cmp it0 target fuel left right e, omega arith, w)
    | inl e ↦
        let l : left < right = ground arith in
        let m = middle host cmp it0 target left right in
        let bounds = middle_bounds left right l (omega arith) in
        let p = IsPoint-at m (omega (arith, bounds.0)) (omega (arith, bounds.1)) in
        let before = p.0 in
        let i = p.1.0 in
        let after = p.1.1.0 in
        let at = p.1.1 in
        elim (Bool-cases (is_lt (cmp.compare i.1 target))) [
          | inl t ↦
              subst Searches (sym (round_at fuel left right before i after true l at.1 at.2 at.3 t))
                (search_restarts-Searches fuel m right bounds.1 r (omega (arith, bounds.0)) (
                  inr (
                    before,
                    (i, (after, at.1, at.2, at.3, is_lt-true (cmp.compare i.1 target) t)),
                  )))
          | inr t ↦
              subst Searches
                (sym (round_at fuel left right before i after false l at.1 at.2 at.3 t))
                (search_restarts-Searches fuel left (m - 1) (omega (arith, bounds.0))
                  (omega (arith, bounds.1)) (omega (arith, bounds.0, bounds.1)) w)
        ]
  ]

  -- Where the linear search starts.
  abbrev Starts : BlockIterator → Type 0
  Starts it =
      (before : List Item) × ((rest : List Item) × Standing items footer0 below it before rest
        × AllBefore cmp target (map key_value before))

  left-Starts :
      (l : ℕ)
      → IsAscending cmp (map key_value items)
      → IsLeft l
      → Starts (seek_to_restart_point host it0 l)
  unfolding seek_to_restart_point
  left-Starts l a (inl z) =
      subst (λ (n : ℕ). Starts (seek_to_restart_point host it0 n)) (sym z)
        ([], (items, seek_first-Standing host cmp interval positive b items built small short, tt))
  left-Starts l a (inr w) =
      let before = w.0 in
      let i = w.1.0 in
      let after = w.1.1.0 in
      let e = w.1.1.1 in
      let z = w.1.1.3 in
      let chain =
        Chained-behind before [] i after (subst (λ (t : List Item). Chained [] t) e built.4) in
      let keys =
        ShortKeys-behind before (i ∷ after) (subst (λ (t : List Item). ShortKeys t) e short) in
      let ascending = subst (λ (t : List Item). IsAscending cmp (map key_value t)) e a in
      let nothing : take i.0 [] ≡ take i.0 i.1 =
        ap (λ (n : ℕ). take n []) z ∙ sym (ap (λ (n : ℕ). take n i.1) z) in
      (
        before,
        (
          i ∷ after,
          (
            e,
            first-Over host cmp interval positive b items built small,
            omega (arith, w.1.1.2),
            (nothing, omega (arith, z), chain.0, chain.1),
            keys,
          ),
          before_target cmp contract before i after target ascending w.1.1.4,
        ),
      )

  -- Entries take bytes, so the bytes are fuel enough.
  entries_bytes : (xs : List Item) → length xs ≤ length (encoded xs)
  entries_bytes [] = omega arith
  entries_bytes (i ∷ xs) = omega (
    arith,
    entries_bytes xs,
    length-entry items footer0 below i,
    length-append (entry_bytes i.0 i.1 i.2) (encoded xs),
  )

  pub seek-Finds :
      IsAscending cmp (map key_value items)
      → Finds host cmp target (map key_value items) (seek host cmp it0 target)
  unfolding seek
  seek-Finds a =
      let found =
        search_restarts-Searches (length b.restarts) 0 (length b.restarts - 1) (omega arith)
          (omega (arith, restarts_some host cmp interval positive b items built small))
          (omega (arith, restarts_some host cmp interval positive b items built small))
          (inl refl) in
      let start = left-Starts found.0 a found.3 in
      let rest = start.1.0 in
      let it1 = seek_to_restart_point host it0 found.0 in
      let fuel : length rest < length b.buffer + 1 = omega (
        arith,
        entries_bytes rest,
        sizes items footer0 below start.0 rest start.1.1.0,
        ap length built.0,
      ) in
      rw (found.1, seek)
        (search_entries-Finds host cmp target items footer0 below rest it1 start.0
          (length b.buffer + 1) start.1.1 start.1.2 fuel)

-- Seek on a block that BlockBuilder wrote: for entries whose keys ascend in a comparator that meets
-- the contract IsComparator, a restart interval of at least 1, and keys and values that with 19
-- bytes for each entry stay below 2^32 - 8 bytes, no assert of Add fails, the block has an
-- iterator, and Seek to any target returns with the iterator at the first entry whose key is not
-- before the target, from which reading by Next gives that entry and all behind it, or behind the
-- last entry where every key is before the target.
pub seek-add_all :
    {P : List ℕ → Type 0} (host : ByteOrder) (cmp : Comparator) (interval : ℕ) (es : List KeyValue)
    (target : List ℕ)
    → IsComparator P cmp
    → 1 ≤ interval
    → IsAscending cmp es
    → weight es + 8 < 2 ^ 32
    → (b : BlockBuilder) × (add_all cmp interval new_builder es ≡ some b)
      × ((it : BlockIterator) × (new_iterator host (new_block host (finish host b).buffer)
            ≡ over it)
          × Finds host cmp target es (seek host cmp it target))
seek-add_all host cmp interval es target contract p a h =
    let all = adds_from_new cmp interval p es a h in
    let b = all.0 in
    let items = all.2.0 in
    let built = all.2.1 in
    let same : map key_value items ≡ es = all.2.2 in
    let small : length b.buffer + 4 * length b.restarts + 4 < 2 ^ 32 = omega (arith, all.2.3) in
    let short =
      short_keys items
        (subst (λ (t : List KeyValue). weight t < 2 ^ 32) (sym same) (omega arith)) in
    let some_restart = restarts_some host cmp interval p b items built small in
    let it = start_of host b some_restart small in
    let found =
      seek-Finds host cmp contract interval p b items built small short target
        (subst (λ (t : List KeyValue). IsAscending cmp t) (sym same) a) in
    (
      b,
      all.1,
      (
        it,
        new_iterator-finish host b some_restart small,
        subst (λ (t : List KeyValue). Finds host cmp target t (seek host cmp it target)) same found,
      ),
    )
