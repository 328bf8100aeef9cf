-- ===== src/Redisdb/Block/Built.antt =====
-- BlockBuilder::Add (redisdb/db/blockbuilder.cc) over a list of ascending keys: no assert fails, and the
-- builder holds the entries.
use Prim.Native.Nat.{Ordering}
use cpp_swiss_army_knife.Common.{
  ℕ, ◌+◌, ◌*◌, ◌%◌, ◌^◌, ◌≤◌, ◌<◌, ◌≡◌, ◌⊎◌, inl, inr, refl, sym, ap, ◌∙◌, subst, List, [], ◌∷◌,
  ◌++◌, map, Option, none, some, Bool, true, false, ◌||◌, Bool-cases, arith, ltb, leb, ◌==◌, length,
  take, drop, length-append, append_assoc, append-nil, take-append-drop, All, All-append,
}
use cpp_swiss_army_knife.Redisdb.Block.{
  BlockBuilder, new_builder, put_entry, may_add, shared_of, restart, add,
}
use cpp_swiss_army_knife.Redisdb.Block.Decode.{entry_bytes, put_entry-entry_bytes}
use cpp_swiss_army_knife.Redisdb.Block.Layout.{
  Item, KeyValue, key_value, encoded, Chained, last_key, IsPoint, weight, encoded_last,
  last_key_last, Chained-last, All-IsPoint-append, shared_length_lem, length-entry_bytes,
}
use cpp_swiss_army_knife.Redisdb.Comparator.{Comparator, compare_bytes}
use cpp_swiss_army_knife.Redisdb.Comparator.Bytewise.{compare_bytes_refl}

-- Add for one entry after the other.
abbrev pub add_all : Comparator → ℕ → BlockBuilder → List KeyValue → Option BlockBuilder
add_all cmp interval b [] = some b
add_all cmp interval b (e ∷ es) = elim (add cmp interval b e.0 e.1) [
  | none ↦ none
  | some b' ↦ add_all cmp interval b' es
]

-- Keys that ascend from a last one, and from their first one.
abbrev pub Ascending : Comparator → List ℕ → List KeyValue → Type 0
Ascending cmp last [] = Unit {0}
Ascending cmp last (e ∷ es) = (cmp.compare e.0 last ≡ Ordering.gt) × Ascending cmp e.0 es

abbrev pub IsAscending : Comparator → List KeyValue → Type 0
IsAscending cmp [] = Unit {0}
IsAscending cmp (e ∷ es) = Ascending cmp e.0 es

entries_last :
    (xs : List Item) (i : Item)
    → map key_value (xs ++ i ∷ []) ≡ map key_value xs ++ key_value i ∷ []
entries_last [] i = refl
entries_last (x ∷ xs) i = ap (λ (t : List KeyValue). key_value x ∷ t) (entries_last xs i)

module _ (cmp : Comparator) (interval : ℕ) (positive : 1 ≤ interval) where
  -- The builder behind some entries.
  abbrev pub Built : BlockBuilder → List Item → Type 0
  Built b items =
      (b.buffer ≡ encoded items)
      × (b.lastkey ≡ last_key [] items)
      × (b.finished ≡ false)
      × (b.counter ≤ interval)
      × Chained [] items
      × ((rs : List ℕ) × (b.restarts ≡ 0 ∷ rs) × All (IsPoint items) rs)

  abbrev Follows : BlockBuilder → List ℕ → Type 0
  Follows b key = (length b.buffer ≡ 0) ⊎ (cmp.compare key b.lastkey ≡ Ordering.gt)

  may_add-Follows :
      (b : BlockBuilder) (key : List ℕ)
      → b.finished ≡ false
      → b.counter ≤ interval
      → Follows b key
      → may_add cmp interval b key ≡ true
  unfolding may_add
  may_add-Follows b key f c w =
      let e : leb b.counter interval ≡ true = ground arith in
      elim w [
        | inl h ↦ let z : (length b.buffer == 0) ≡ true = ground arith in rw (f, e, z) refl
        | inr h ↦ rw (f, e, h) (or_true (length b.buffer == 0))
      ]
    where
      or_true : (x : Bool) → (x || true) ≡ true
      or_true true = refl
      or_true false = refl

  -- What the shared length is, on both branches.
  shared_of_lem :
      (b : BlockBuilder) (key : List ℕ)
      → let s = shared_of cmp interval b key in
        (take s b.lastkey ≡ take s key) × (s ≤ length b.lastkey) × (s ≤ length key)
  unfolding shared_of
  shared_of_lem b key = elim (Bool-cases (ltb b.counter interval)) [
    | inl e ↦ rw (e) (shared_length_lem b.lastkey key)
    | inr e ↦ rw (e) (refl, omega arith, omega arith)
  ]

  restart_keeps :
      (b : BlockBuilder)
      → ((restart cmp interval b).buffer ≡ b.buffer)
        × ((restart cmp interval b).lastkey ≡ b.lastkey)
        × ((restart cmp interval b).finished ≡ b.finished)
        × ((restart cmp interval b).counter + 1 ≤ interval)
  unfolding restart
  restart_keeps b = elim (Bool-cases (ltb b.counter interval)) [
    | inl e ↦ rw (e) (refl, refl, refl, ground arith)
    | inr e ↦ rw (e) (refl, refl, refl, omega arith)
  ]

  -- The builder that Add leaves.
  abbrev added : BlockBuilder → List ℕ → List ℕ → BlockBuilder
  added b key value =
      let b1 = restart cmp interval b in
      record b1 {
        buffer = put_entry b1.buffer (shared_of cmp interval b key) key value;
        lastkey =
            take (shared_of cmp interval b key) b1.lastkey
            ++ drop (shared_of cmp interval b key) key;
        counter = b1.counter + 1;
      }

  added-lastkey : (b : BlockBuilder) (key value : List ℕ) → (added b key value).lastkey ≡ key
  added-lastkey b key value =
      let s = shared_of cmp interval b key in
      ap (λ (t : List ℕ). take s t ++ drop s key) (restart_keeps b).1
      ∙ ap (λ (t : List ℕ). t ++ drop s key) (shared_of_lem b key).0
      ∙ take-append-drop s key

  add_lem :
      (b : BlockBuilder) (key value : List ℕ)
      → may_add cmp interval b key ≡ true
      → add cmp interval b key value ≡ some (added b key value)
  unfolding add
  add_lem b key value m =
      let same : compare_bytes (added b key value).lastkey key ≡ Ordering.eq =
        ap (λ (t : List ℕ). compare_bytes t key) (added-lastkey b key value)
        ∙ compare_bytes_refl key in
      rw (m, same) refl

  abbrev item_of : BlockBuilder → List ℕ → List ℕ → Item
  item_of b key value = (shared_of cmp interval b key, key, value)

  added-buffer :
      (b : BlockBuilder) (items : List Item) (key value : List ℕ)
      → b.buffer ≡ encoded items
      → length key < 2 ^ 32
      → length value < 2 ^ 32
      → (added b key value).buffer ≡ encoded (items ++ item_of b key value ∷ [])
  added-buffer b items key value e hk hv =
      let s = shared_of cmp interval b key in
      ap (λ (t : List ℕ). put_entry t s key value) ((restart_keeps b).0 ∙ e)
      ∙ put_entry-entry_bytes (encoded items) s key value (shared_of_lem b key).2 hk hv
      ∙ sym (encoded_last items (item_of b key value))

  -- A restart point is where an entry shares nothing.
  abbrev Points : BlockBuilder → List Item → Type 0
  Points b items = (rs : List ℕ) × (b.restarts ≡ 0 ∷ rs) × All (IsPoint items) rs

  restarts_kept :
      (b : BlockBuilder)
      → ltb b.counter interval ≡ true
      → (restart cmp interval b).restarts ≡ b.restarts
  unfolding restart
  restarts_kept b c = rw (c) refl

  restarts_pushed :
      (b : BlockBuilder) (key : List ℕ)
      → ltb b.counter interval ≡ false
      → ((restart cmp interval b).restarts ≡ b.restarts ++ (length b.buffer % 2 ^ 32) ∷ [])
        × (shared_of cmp interval b key ≡ 0)
  unfolding restart shared_of
  restarts_pushed b key c = rw (c) (refl, refl)

  restart-Points :
      (b : BlockBuilder) (items : List Item) (key value : List ℕ)
      → b.buffer ≡ encoded items
      → length b.buffer < 2 ^ 32
      → Points b items
      → Points (restart cmp interval b) (items ++ item_of b key value ∷ [])
  restart-Points b items key value e h p =
      let i = item_of b key value in
      let old = All-IsPoint-append items (i ∷ []) p.0 p.2 in
      elim (Bool-cases (ltb b.counter interval)) [
        | inl c ↦ (p.0, restarts_kept b c ∙ p.1, old)
        | inr c ↦
            let r = length b.buffer % 2 ^ 32 in
            let pushed = restarts_pushed b key c in
            let here : r ≡ length (encoded items) =
              let whole : r ≡ length b.buffer = omega arith in whole ∙ ap length e in
            let point : IsPoint (items ++ i ∷ []) r = (items, (i, ([], refl, here, pushed.1))) in
            (
              p.0 ++ r ∷ [],
              pushed.0 ∙ ap (λ (t : List ℕ). t ++ r ∷ []) p.1,
              All-append (IsPoint (items ++ i ∷ [])) p.0 (r ∷ []) old (point, tt),
            )
      ]

  added-Built :
      (b : BlockBuilder) (items : List Item) (key value : List ℕ)
      → Built b items
      → length b.buffer + length key + length value + 19 < 2 ^ 32
      → Built (added b key value) (items ++ item_of b key value ∷ [])
  added-Built b items key value w h =
      let i = item_of b key value in
      let shared = shared_of_lem b key in
      let s = shared_of cmp interval b key in
      let one : Chained (last_key [] items) (i ∷ []) = (
        ap (take s) (sym w.1) ∙ shared.0,
        subst (λ (t : List ℕ). s ≤ length t) w.1 shared.1,
        shared.2,
        tt,
      ) in
      (
        added-buffer b items key value w.0 (omega arith) (omega arith),
        added-lastkey b key value ∙ sym (last_key_last [] items i),
        (restart_keeps b).2 ∙ w.2,
        (restart_keeps b).3,
        Chained-last [] items i w.4 one,
        restart-Points b items key value w.0 (omega arith) w.5,
      )

  -- The bytes and the restart points that an entry adds.
  added_grows :
      (b : BlockBuilder) (items : List Item) (key value : List ℕ)
      → Built b items
      → length b.buffer + length key + length value + 19 < 2 ^ 32
      → (length (added b key value).buffer ≤ length b.buffer + length key + length value + 15)
        × (length (added b key value).restarts ≤ length b.restarts + 1)
  added_grows b items key value w h =
      let shared = shared_of_lem b key in
      let s = shared_of cmp interval b key in
      let bytes = entry_bytes s key value in
      let put = put_entry-entry_bytes b.buffer s key value shared.2 (omega arith) (omega arith) in
      let size = length-entry_bytes s key value (omega arith) (omega arith) shared.2 in
      let whole : (added b key value).buffer ≡ b.buffer ++ bytes =
        ap (λ (t : List ℕ). put_entry t s key value) (restart_keeps b).0 ∙ put in
      (
        omega (arith, ap length whole, size.0, length-append b.buffer bytes),
        elim (Bool-cases (ltb b.counter interval)) [
          | inl c ↦ omega (arith, ap length (restarts_kept b c))
          | inr c ↦ omega (
            arith,
            ap length (restarts_pushed b key c).0,
            length-append b.restarts ((length b.buffer % 2 ^ 32) ∷ []),
          )
        ],
      )

  -- All entries are added, and take no more than their weight.
  abbrev pub AddsAll : BlockBuilder → List Item → List KeyValue → Type 0
  AddsAll b items es =
      (b' : BlockBuilder) × (add_all cmp interval b es ≡ some b')
      × ((items' : List Item) × Built b' items'
          × (map key_value items' ≡ map key_value items ++ es)
          × (length b'.buffer + 4 * length b'.restarts
              ≤ length b.buffer + 4 * length b.restarts + weight es))

  adds_next :
      (b : BlockBuilder) (items : List Item) (key value : List ℕ) (es : List KeyValue)
      → Built b items
      → Follows b key
      → length b.buffer + length key + length value + 19 < 2 ^ 32
      → AddsAll (added b key value) (items ++ item_of b key value ∷ []) es
      → AddsAll b items ((key, value) ∷ es)
  adds_next b items key value es w f h more =
      let grows = added_grows b items key value w h in
      let one = add_lem b key value (may_add-Follows b key w.2 w.3 f) in
      let rest = more.2 in
      (
        more.0,
        rw (one, add_all) (more.1),
        (
          rest.0,
          rest.1,
          rest.2
              ∙ ap (λ (t : List KeyValue). t ++ es) (entries_last items (item_of b key value))
              ∙ append_assoc (map key_value items) ((key, value) ∷ []) es,
          omega (arith, rest.3, grows.0, grows.1),
        ),
      )

  pub adds_all :
      (es : List KeyValue) (b : BlockBuilder) (items : List Item)
      → Built b items
      → Ascending cmp b.lastkey es
      → length b.buffer + 4 * length b.restarts + weight es < 2 ^ 32
      → AddsAll b items es
  adds_all [] b items w a h =
      (b, refl, (items, w, sym (append-nil (map key_value items)), omega arith))
  adds_all (e ∷ es) b items w a h =
      let fits : length b.buffer + length e.0 + length e.1 + 19 < 2 ^ 32 = omega arith in
      let b1 = added b e.0 e.1 in
      let grows = added_grows b items e.0 e.1 w fits in
      let follow : Ascending cmp b1.lastkey es =
        subst (λ (t : List ℕ). Ascending cmp t es) (sym (added-lastkey b e.0 e.1)) a.1 in
      adds_next b items e.0 e.1 es w (inr a.0) fits (
        adds_all es b1 (items ++ item_of b e.0 e.1 ∷ []) (added-Built b items e.0 e.1 w fits) follow
          (omega (arith, grows.0, grows.1)))

  new_builder-Built : Built new_builder []
  new_builder-Built = (refl, refl, refl, omega arith, tt, ([], refl, tt))

  pub adds_from_new :
      (es : List KeyValue) → IsAscending cmp es → weight es + 8 < 2 ^ 32 → AddsAll new_builder [] es
  adds_from_new [] a h = adds_all [] new_builder [] new_builder-Built tt (omega arith)
  adds_from_new (e ∷ es) a h =
      let fits : 0 + length e.0 + length e.1 + 19 < 2 ^ 32 = omega arith in
      let b1 = added new_builder e.0 e.1 in
      let grows = added_grows new_builder [] e.0 e.1 new_builder-Built fits in
      let follow : Ascending cmp b1.lastkey es =
        subst (λ (t : List ℕ). Ascending cmp t es) (sym (added-lastkey new_builder e.0 e.1)) a in
      adds_next new_builder [] e.0 e.1 es new_builder-Built (inl refl) fits (
        adds_all es b1 (item_of new_builder e.0 e.1 ∷ [])
          (added-Built new_builder [] e.0 e.1 new_builder-Built fits) follow
          (omega (arith, grows.0, grows.1)))
