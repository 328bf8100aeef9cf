-- ===== src/Redisdb/Block/Decode.antt =====
-- decodeEntry (redisdb/db/block.cc) on an entry of BlockBuilder::Add (redisdb/db/blockbuilder.cc).
use cpp_swiss_army_knife.Common.{
  ℕ, ◌+◌, ◌-◌, ◌/◌, ◌%◌, ◌^◌, ◌≤◌, ◌<◌, ◌≡◌, ◌⊎◌, inl, inr, refl, sym, ap, ◌∙◌, subst, bit_or, List,
  [], ◌∷◌, ◌++◌, some, true, false, Bool-cases, arith, ltb, length, drop, length-append,
  length-drop, append_assoc,
}
use cpp_swiss_army_knife.Common.Bits.{bit_or-ge, bit_or-lt}
use cpp_swiss_army_knife.Redisdb.Block.{put_entry}
use cpp_swiss_army_knife.Redisdb.Block.Iterator.{whole_entry, slow_entry, decode_entry}
use cpp_swiss_army_knife.Redisdb.Coding.{
  encode_varint32, put_varint32, get_varint32, get_varint32_ptr,
}
use cpp_swiss_army_knife.Redisdb.Coding.Varint.{
  groups, length-groups, encode_varint32-groups, get_varint32-encode_varint32,
}

-- The bytes of an entry, whose lengths fit in 32 bits.
abbrev pub lengths_then : ℕ → ℕ → ℕ → List ℕ → List ℕ
lengths_then s n l rest = encode_varint32 s ++ (encode_varint32 n ++ (encode_varint32 l ++ rest))

abbrev pub entry_bytes : ℕ → List ℕ → List ℕ → List ℕ
entry_bytes s key value = lengths_then s (length key - s) (length value) (drop s key ++ value)

get_varint32_ptr-encode :
    (v : ℕ) (rest : List ℕ)
    → v < 2 ^ 32
    → get_varint32_ptr (encode_varint32 v ++ rest) ≡ some (v, rest)
unfolding get_varint32
get_varint32_ptr-encode v rest h = get_varint32-encode_varint32 v rest h

slow_entry_lem :
    (s n l : ℕ) (rest : List ℕ)
    → s < 2 ^ 32
    → n < 2 ^ 32
    → l < 2 ^ 32
    → slow_entry (lengths_then s n l rest) ≡ whole_entry s n l rest
unfolding slow_entry
slow_entry_lem s n l rest hs hn hl =
    rw
      (
        get_varint32_ptr-encode s (encode_varint32 n ++ (encode_varint32 l ++ rest)) hs,
        get_varint32_ptr-encode n (encode_varint32 l ++ rest) hn,
        get_varint32_ptr-encode l rest hl,
      )
      refl

-- One of the first three bytes has its top bit set.
abbrev HasHigh : List ℕ → Type 0
HasHigh (a ∷ b ∷ c ∷ p) = (128 ≤ a) ⊎ ((128 ≤ b) ⊎ (128 ≤ c))
HasHigh _ = 1 ≤ 0

decode_entry-HasHigh : (xs : List ℕ) → HasHigh xs → decode_entry xs ≡ slow_entry xs
unfolding decode_entry
decode_entry-HasHigh [] h = absurd (omega arith)
decode_entry-HasHigh (a ∷ []) h = absurd (omega arith)
decode_entry-HasHigh (a ∷ b ∷ []) h = absurd (omega arith)
decode_entry-HasHigh (a ∷ b ∷ c ∷ p) h =
    let ab = bit_or-ge a b in
    let abc = bit_or-ge (bit_or a b) c in
    let big : 128 ≤ bit_or (bit_or a b) c = elim h [
      | inl ha ↦ omega (arith, ab.0, abc.0)
      | inr (inl hb) ↦ omega (arith, ab.1, abc.0)
      | inr (inr hc) ↦ omega (arith, abc.1)
    ] in
    let e : ltb (bit_or (bit_or a b) c) 128 ≡ false = ground arith in rw (e) refl

encode_small : (v : ℕ) → v < 128 → encode_varint32 v ≡ v ∷ []
unfolding encode_varint32
encode_small v h = ground arith

-- A long encoding starts with a byte that has its top bit set.
abbrev StartsHigh : List ℕ → Type 0
StartsHigh [] = 1 ≤ 0
StartsHigh (b ∷ p) = (128 ≤ b) × (1 ≤ length p)

encode-StartsHigh : (v : ℕ) → 128 ≤ v → v < 2 ^ 32 → StartsHigh (encode_varint32 v)
unfolding groups
encode-StartsHigh v h b =
    let e : ltb v 128 ≡ false = ground arith in
    rw (encode_varint32-groups v b) (rw (e) (omega arith, (length-groups 3 (v / 128)).0))

one_or_more : (v : ℕ) → v < 2 ^ 32 → 1 ≤ length (encode_varint32 v)
one_or_more v h = rw (encode_varint32-groups v h) (length-groups 4 v).0

high_first : (xs ys : List ℕ) → StartsHigh xs → 1 ≤ length ys → HasHigh (xs ++ ys)
high_first [] ys h l = absurd (omega arith)
high_first (a ∷ []) ys h l = absurd (omega (arith, h.1))
high_first (a ∷ b ∷ []) [] h l = absurd (omega arith)
high_first (a ∷ b ∷ []) (y ∷ ys) h l = inl h.0
high_first (a ∷ b ∷ c ∷ xs) ys h l = inl h.0

high_second : (a : ℕ) (xs ys : List ℕ) → StartsHigh xs → HasHigh (a ∷ (xs ++ ys))
high_second a [] ys h = absurd (omega arith)
high_second a (b ∷ []) ys h = absurd (omega (arith, h.1))
high_second a (b ∷ c ∷ xs) ys h = inr (inl h.0)

high_third : (a b : ℕ) (xs ys : List ℕ) → StartsHigh xs → HasHigh (a ∷ b ∷ (xs ++ ys))
high_third a b [] ys h = absurd (omega arith)
high_third a b (c ∷ xs) ys h = inr (inr h.0)

fast_entry :
    (a b c : ℕ) (p : List ℕ)
    → a < 128
    → b < 128
    → c < 128
    → decode_entry (a ∷ b ∷ c ∷ p) ≡ whole_entry a b c p
unfolding decode_entry
fast_entry a b c p ha hb hc =
    let small : bit_or (bit_or a b) c < 128 =
      bit_or-lt 7 (bit_or a b) c (bit_or-lt 7 a b ha hb) hc in
    let e : ltb (bit_or (bit_or a b) c) 128 ≡ true = ground arith in rw (e) refl

small_or_not : (v : ℕ) → (v < 128) ⊎ (128 ≤ v)
small_or_not v = elim (Bool-cases (ltb v 128)) [
  | inl e ↦ inl (ground arith)
  | inr e ↦ inr (ground arith)
]

module _ (s n l : ℕ) (rest : List ℕ) (hs : s < 2 ^ 32) (hn : n < 2 ^ 32) (hl : l < 2 ^ 32) where
  slow_case :
      HasHigh (lengths_then s n l rest)
      → decode_entry (lengths_then s n l rest) ≡ whole_entry s n l rest
  slow_case h =
      decode_entry-HasHigh (lengths_then s n l rest) h ∙ slow_entry_lem s n l rest hs hn hl

  -- The fast path and the varints agree on what Add writes.
  pub decode_entry-lengths : decode_entry (lengths_then s n l rest) ≡ whole_entry s n l rest
  decode_entry-lengths = elim (small_or_not s) [
    | inr big ↦ slow_case (
        high_first (encode_varint32 s) (encode_varint32 n ++ (encode_varint32 l ++ rest))
          (encode-StartsHigh s big hs)
          (omega (
            arith,
            one_or_more n hn,
            length-append (encode_varint32 n) (encode_varint32 l ++ rest),
          )))
    | inl s1 ↦ elim (small_or_not n) [
      | inr big ↦ slow_case (
          subst (λ (x : List ℕ). HasHigh (x ++ (encode_varint32 n ++ (encode_varint32 l ++ rest))))
            (sym (encode_small s s1))
            (high_second s (encode_varint32 n) (encode_varint32 l ++ rest)
              (encode-StartsHigh n big hn)))
      | inl n1 ↦ elim (small_or_not l) [
        | inr big ↦ slow_case (
            rw (encode_small s s1, encode_small n n1)
              (high_third s n (encode_varint32 l) rest (encode-StartsHigh l big hl)))
        | inl l1 ↦
            rw (encode_small s s1, encode_small n n1, encode_small l l1)
              (fast_entry s n l rest s1 n1 l1)
      ]
    ]
  ]

whole_entry_fits :
    (s n l : ℕ) (p : List ℕ)
    → n + l ≤ length p
    → length p < 2 ^ 32
    → whole_entry s n l p
      ≡ some (record { shared = s; non_shared = n; value_length = l; delta = p })
unfolding whole_entry
whole_entry_fits s n l p h b =
    let e : ltb (length p % 2 ^ 32) ((n + l) % 2 ^ 32) ≡ false = ground arith in rw (e) refl

pub decode_entry-entry_bytes :
    (s : ℕ) (key value rest : List ℕ)
    → s ≤ length key
    → length key < 2 ^ 32
    → length key - s + length value + length rest < 2 ^ 32
    → decode_entry (entry_bytes s key value ++ rest)
      ≡ some (record {
        shared = s;
        non_shared = length key - s;
        value_length = length value;
        delta = drop s key ++ (value ++ rest);
      })
decode_entry-entry_bytes s key value rest h hk b =
    let n = length key - s in
    let p = drop s key ++ (value ++ rest) in
    let parts : entry_bytes s key value ++ rest ≡ lengths_then s n (length value) p =
      append_assoc (encode_varint32 s)
        (encode_varint32 n ++ (encode_varint32 (length value) ++ (drop s key ++ value))) rest
      ∙ ap (λ (t : List ℕ). encode_varint32 s ++ t)
          (append_assoc (encode_varint32 n)
              (encode_varint32 (length value) ++ (drop s key ++ value)) rest
            ∙ ap (λ (t : List ℕ). encode_varint32 n ++ t)
                (append_assoc (encode_varint32 (length value)) (drop s key ++ value) rest
                  ∙ ap (λ (t : List ℕ). encode_varint32 (length value) ++ t)
                      (append_assoc (drop s key) value rest))) in
    let size : length p ≡ n + (length value + length rest) = omega (
      arith,
      length-append (drop s key) (value ++ rest),
      length-append value rest,
      length-drop s key,
    ) in
    ap decode_entry parts
    ∙ decode_entry-lengths s n (length value) p (omega arith) (omega arith) (omega arith)
    ∙ whole_entry_fits s n (length value) p (omega (arith, size)) (omega (arith, size))

-- What Add appends is an entry.
pub put_entry-entry_bytes :
    (buffer : List ℕ) (s : ℕ) (key value : List ℕ)
    → s ≤ length key
    → length key < 2 ^ 32
    → length value < 2 ^ 32
    → put_entry buffer s key value ≡ buffer ++ entry_bytes s key value
unfolding put_entry put_varint32
put_entry-entry_bytes buffer s key value h hk hv =
    let a : s % 2 ^ 32 ≡ s = omega arith in
    let b : (length key - s) % 2 ^ 32 ≡ length key - s = omega arith in
    let c : length value % 2 ^ 32 ≡ length value = omega arith in
    let es = encode_varint32 s in
    let en = encode_varint32 (length key - s) in
    let el = encode_varint32 (length value) in
    let rest = drop s key ++ value in
    rw (a, b, c)
      (append_assoc ((buffer ++ es) ++ en) el rest
        ∙ append_assoc (buffer ++ es) en (el ++ rest)
        ∙ append_assoc buffer es (en ++ (el ++ rest)))
