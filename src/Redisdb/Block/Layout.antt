-- ===== src/Redisdb/Block/Layout.antt =====
-- The entries of a block (redisdb/db/blockbuilder.cc) one behind the other, and what BlockBuilder::Add
-- makes of a list of them.

use cpp_swiss_army_knife.Common.{
  ℕ, ◌+◌, ◌-◌, ◌^◌, ◌≤◌, ◌<◌, ◌≡◌, inl, inr, refl, sym, ap, ◌∙◌, List, [], ◌∷◌, ◌++◌, Bool-cases,
  arith, ◌==◌, length, take, drop, length-append, length-drop, append_assoc, append-nil, All,
}
use cpp_swiss_army_knife.Redisdb.Block.Decode.{entry_bytes}
use cpp_swiss_army_knife.Redisdb.Coding.{encode_varint32}
use cpp_swiss_army_knife.Redisdb.Coding.Varint.{length-groups, encode_varint32-groups}
use cpp_swiss_army_knife.Redisdb.Comparator.{shared_length}

-- A shared length, a key and a value.
abbrev pub Item : Type 0
Item = ℕ × List ℕ × List ℕ

abbrev pub KeyValue : Type 0
KeyValue = List ℕ × List ℕ

abbrev pub key_value : Item → KeyValue
key_value i = (i.1, i.2)

abbrev pub encoded : List Item → List ℕ
encoded [] = []
encoded (i ∷ items) = entry_bytes i.0 i.1 i.2 ++ encoded items

-- Each entry leaves out a prefix of the key before it.
abbrev pub Chained : List ℕ → List Item → Type 0
Chained last [] = Unit {0}
Chained last (i ∷ items) =
    (take i.0 last ≡ take i.0 i.1) × (i.0 ≤ length last) × (i.0 ≤ length i.1) × Chained i.1 items

abbrev pub last_key : List ℕ → List Item → List ℕ
last_key last [] = last
last_key last (i ∷ items) = last_key i.1 items

-- The offset of an entry that shares nothing.
abbrev pub IsPoint : List Item → ℕ → Type 0
IsPoint items r =
    (before : List Item) × ((i : Item) × ((after : List Item) × (items ≡ before ++ i ∷ after)
        × (r ≡ length (encoded before))
        × (i.0 ≡ 0)))

-- The most that the entries take in the block, with their restart points.
abbrev pub weight : List KeyValue → ℕ
weight [] = 0
weight (e ∷ es) = length e.0 + length e.1 + 19 + weight es

pub encoded-append : (xs ys : List Item) → encoded (xs ++ ys) ≡ encoded xs ++ encoded ys
encoded-append [] ys = refl
encoded-append (i ∷ xs) ys =
    ap (λ (t : List ℕ). entry_bytes i.0 i.1 i.2 ++ t) (encoded-append xs ys)
    ∙ sym (append_assoc (entry_bytes i.0 i.1 i.2) (encoded xs) (encoded ys))

pub encoded_last :
    (xs : List Item) (i : Item) → encoded (xs ++ i ∷ []) ≡ encoded xs ++ entry_bytes i.0 i.1 i.2
encoded_last xs i =
    encoded-append xs (i ∷ [])
    ∙ ap (λ (t : List ℕ). encoded xs ++ t) (append-nil (entry_bytes i.0 i.1 i.2))

pub last_key_last : (last : List ℕ) (xs : List Item) (i : Item) → last_key last (xs ++ i ∷ []) ≡ i.1
last_key_last last [] i = refl
last_key_last last (x ∷ xs) i = last_key_last x.1 xs i

pub Chained-last :
    (last : List ℕ) (xs : List Item) (i : Item)
    → Chained last xs
    → Chained (last_key last xs) (i ∷ [])
    → Chained last (xs ++ i ∷ [])
Chained-last last [] i c one = one
Chained-last last (x ∷ xs) i c one = (c.0, c.1, c.2, Chained-last x.1 xs i c.3 one)

IsPoint-append : (xs ys : List Item) (r : ℕ) → IsPoint xs r → IsPoint (xs ++ ys) r
IsPoint-append xs ys r p =
    let before = p.0 in
    let i = p.1.0 in
    let after = p.1.1.0 in
    (
      before,
      (
        i,
        (
          after ++ ys,
          ap (λ (t : List Item). t ++ ys) p.1.1.1 ∙ append_assoc before (i ∷ after) ys,
          p.1.1.2,
          p.1.1.3,
        ),
      ),
    )

pub All-IsPoint-append :
    (xs ys : List Item) (rs : List ℕ) → All (IsPoint xs) rs → All (IsPoint (xs ++ ys)) rs
All-IsPoint-append xs ys [] h = tt
All-IsPoint-append xs ys (r ∷ rs) h = (IsPoint-append xs ys r h.0, All-IsPoint-append xs ys rs h.1)

pub shared_length_lem :
    (a b : List ℕ)
    → (take (shared_length a b) a ≡ take (shared_length a b) b)
      × (shared_length a b ≤ length a)
      × (shared_length a b ≤ length b)
unfolding shared_length
shared_length_lem [] b = (refl, omega arith, omega arith)
shared_length_lem (x ∷ a) [] = (refl, omega arith, omega arith)
shared_length_lem (x ∷ a) (y ∷ b) = elim (Bool-cases (x == y)) [
  | inl e ↦
      let more = shared_length_lem a b in
      let same : x ≡ y = ground arith in
      rw (e) (
        ap (λ (t : List ℕ). x ∷ t) more.0 ∙ ap (λ (z : ℕ). z ∷ take (shared_length a b) b) same,
        omega (arith, more.1),
        omega (arith, more.2),
      )
  | inr e ↦ rw (e) (refl, omega arith, omega arith)
]

length-encode : (v : ℕ) → v < 2 ^ 32 → length (encode_varint32 v) ≤ 5
length-encode v h = rw (encode_varint32-groups v h) (length-groups 4 v).1

one_byte : (v : ℕ) → v < 2 ^ 32 → 1 ≤ length (encode_varint32 v)
one_byte v h = rw (encode_varint32-groups v h) (length-groups 4 v).0

pub length-entry_bytes :
    (s : ℕ) (key value : List ℕ)
    → length key < 2 ^ 32
    → length value < 2 ^ 32
    → s ≤ length key
    → (length (entry_bytes s key value) ≤ length key + length value + 15)
      × (1 ≤ length (entry_bytes s key value))
length-entry_bytes s key value hk hv hs =
    let n = length key - s in
    let rest = drop s key ++ value in
    let el = encode_varint32 (length value) ++ rest in
    let en = encode_varint32 n ++ el in
    let a = length-append (encode_varint32 s) en in
    let b = length-append (encode_varint32 n) el in
    let c = length-append (encode_varint32 (length value)) rest in
    let d = length-append (drop s key) value in
    let e = length-drop s key in
    let ks : s < 2 ^ 32 = omega arith in
    let kn : n < 2 ^ 32 = omega arith in
    (
      omega (
        arith,
        a,
        b,
        c,
        d,
        e,
        length-encode s ks,
        length-encode n kn,
        length-encode (length value) hv,
      ),
      omega (arith, a, one_byte s ks),
    )
