-- ===== src/Redisdb/Coding/Fixed.antt =====
-- The fixed-width encodings of redisdb/db/coding.cc read back, on machines of both byte orders.
use native.Mathlib.Nat.{pow-suc}
use cpp_swiss_army_knife.Common.{
  ℕ, zero, suc, ◌+◌, ◌*◌, ◌/◌, ◌%◌, ◌^◌, ◌<◌, ◌≡◌, refl, sym, ap, ◌∙◌, List, [], ◌∷◌, ◌++◌, length,
  take, drop, drop-length, append-nil, length-append, take-length, All, arith,
}
use cpp_swiss_army_knife.Redisdb.Coding.{
  ByteOrder, little_endian, big_endian, le_bytes, be_bytes, le_value, be_value, object_bytes,
  object_value, shifted_bytes32, shifted_bytes64, encode_fixed32, encode_fixed64, decode_fixed32,
  decode_fixed64,
}

abbrev pub IsByte : ℕ → Type 0
IsByte b = b < 256

abbrev pub IsBytes : List ℕ → Type 0
IsBytes = All IsByte

-- Byte strings of one length with one value are equal.
le_value-inj :
    (xs ys : List ℕ)
    → IsBytes xs
    → IsBytes ys
    → length xs ≡ length ys
    → le_value xs ≡ le_value ys
    → xs ≡ ys
unfolding le_value
le_value-inj [] [] p q l h = refl
le_value-inj [] (y ∷ ys) p q l h = absurd (omega arith)
le_value-inj (x ∷ xs) [] p q l h = absurd (omega arith)
le_value-inj (x ∷ xs) (y ∷ ys) p q l h =
    let a = p.0 in
    let b = q.0 in
    let e : x ≡ y = omega arith in
    let r : xs ≡ ys = le_value-inj xs ys p.1 q.1 (omega arith) (omega arith) in cc

-- The accumulators are told apart too.
be_value-inj :
    (xs ys : List ℕ) (m n : ℕ)
    → IsBytes xs
    → IsBytes ys
    → length xs ≡ length ys
    → be_value m xs ≡ be_value n ys
    → (m ≡ n) × (xs ≡ ys)
unfolding be_value
be_value-inj [] [] m n p q l h = (h, refl)
be_value-inj [] (y ∷ ys) m n p q l h = absurd (omega arith)
be_value-inj (x ∷ xs) [] m n p q l h = absurd (omega arith)
be_value-inj (x ∷ xs) (y ∷ ys) m n p q l h =
    let a = p.0 in
    let b = q.0 in
    let r = be_value-inj xs ys (m * 256 + x) (n * 256 + y) p.1 q.1 (omega arith) h in
    let s = r.0 in let e : x ≡ y = omega arith in (omega arith, ground (arith, r.1))

object_value-inj :
    (host : ByteOrder) (xs ys : List ℕ)
    → IsBytes xs
    → IsBytes ys
    → length xs ≡ length ys
    → object_value host xs ≡ object_value host ys
    → xs ≡ ys
unfolding object_value
object_value-inj little_endian xs ys p q l h = le_value-inj xs ys p q l h
object_value-inj big_endian xs ys p q l h = (be_value-inj xs ys 0 0 p q l h).1

take_whole : (n : ℕ) (xs : List ℕ) → length xs ≡ n → take n xs ≡ xs
take_whole n xs e =
    ap (λ (t : List ℕ). take n t) (sym (append-nil xs))
    ∙ ap (λ (t : ℕ). take t (xs ++ [])) (sym e)
    ∙ take-length xs []

-- DecodeFixed64 tells words of eight bytes apart.
pub decode_fixed64-inj :
    (host : ByteOrder) (xs ys : List ℕ)
    → IsBytes xs
    → IsBytes ys
    → length xs ≡ 8
    → length ys ≡ 8
    → decode_fixed64 host xs ≡ decode_fixed64 host ys
    → xs ≡ ys
unfolding decode_fixed64
decode_fixed64-inj host xs ys p q l m h = object_value-inj host xs ys p q (omega arith) (
    ap (object_value host) (sym (take_whole 8 xs l))
    ∙ h
    ∙ ap (object_value host) (take_whole 8 ys m))

length-le_bytes : (n v : ℕ) → length (le_bytes n v) ≡ n
unfolding le_bytes
length-le_bytes zero v = refl
length-le_bytes (suc n) v = ap suc (length-le_bytes n (v / 256))

length-be_bytes : (n v : ℕ) → length (be_bytes n v) ≡ n
unfolding be_bytes
length-be_bytes zero v = refl
length-be_bytes (suc n) v =
    length-append (be_bytes n (v / 256)) (v % 256 ∷ []) ∙ omega (arith, length-be_bytes n (v / 256))

pub length-object_bytes : (host : ByteOrder) (n v : ℕ) → length (object_bytes host n v) ≡ n
unfolding object_bytes
length-object_bytes little_endian n v = length-le_bytes n v
length-object_bytes big_endian n v = length-be_bytes n v

le_value-le_bytes : (n v : ℕ) → v < 256 ^ n → le_value (le_bytes n v) ≡ v
unfolding le_bytes le_value
le_value-le_bytes zero v h = omega arith
le_value-le_bytes (suc n) v h =
    let p : 256 ^ suc n ≡ 256 ^ n * 256 = pow-suc 256 n in
    omega (arith, le_value-le_bytes n (v / 256) (omega arith))

be_value-append :
    (bs : List ℕ) (acc b : ℕ) → be_value acc (bs ++ b ∷ []) ≡ be_value acc bs * 256 + b
unfolding be_value
be_value-append [] acc b = refl
be_value-append (x ∷ bs) acc b = be_value-append bs (acc * 256 + x) b

be_value-be_bytes : (n v : ℕ) → v < 256 ^ n → be_value 0 (be_bytes n v) ≡ v
unfolding be_bytes
be_value-be_bytes zero v h = unfold be_value in omega arith
be_value-be_bytes (suc n) v h =
    let p : 256 ^ suc n ≡ 256 ^ n * 256 = pow-suc 256 n in
    be_value-append (be_bytes n (v / 256)) 0 (v % 256)
    ∙ omega (arith, be_value-be_bytes n (v / 256) (omega arith))

object_value-object_bytes :
    (host : ByteOrder) (n v : ℕ) → v < 256 ^ n → object_value host (object_bytes host n v) ≡ v
unfolding object_value object_bytes
object_value-object_bytes little_endian n v h = le_value-le_bytes n v h
object_value-object_bytes big_endian n v h = be_value-be_bytes n v h

object_value-take :
    (host : ByteOrder) (n v : ℕ) (rest : List ℕ)
    → v < 256 ^ n
    → object_value host (take n (object_bytes host n v ++ rest)) ≡ v
object_value-take host n v rest h =
    let e = ap (λ (k : ℕ). take k (object_bytes host n v ++ rest)) (length-object_bytes host n v) in
    ap (object_value host) (sym e ∙ take-length (object_bytes host n v) rest)
    ∙ object_value-object_bytes host n v h

-- DecodeFixed32 of what EncodeFixed32 writes is the value, for every 32-bit value, on a host of
-- either byte order.
pub decode_fixed32-encode_fixed32 :
    (host : ByteOrder) (v : ℕ) (rest : List ℕ)
    → v < 2 ^ 32
    → decode_fixed32 host (encode_fixed32 host v ++ rest) ≡ v
unfolding decode_fixed32 encode_fixed32
decode_fixed32-encode_fixed32 host v rest h = object_value-take host 4 v rest h

-- DecodeFixed64 of what EncodeFixed64 writes is the value, for every 64-bit value, on a host of
-- either byte order.
pub decode_fixed64-encode_fixed64 :
    (host : ByteOrder) (v : ℕ) (rest : List ℕ)
    → v < 2 ^ 64
    → decode_fixed64 host (encode_fixed64 host v ++ rest) ≡ v
unfolding decode_fixed64 encode_fixed64
decode_fixed64-encode_fixed64 host v rest h = object_value-take host 8 v rest h

pub length-encode_fixed32 : (host : ByteOrder) (v : ℕ) → length (encode_fixed32 host v) ≡ 4
unfolding encode_fixed32
length-encode_fixed32 host v = length-object_bytes host 4 v

pub length-encode_fixed64 : (host : ByteOrder) (v : ℕ) → length (encode_fixed64 host v) ≡ 8
unfolding encode_fixed64
length-encode_fixed64 host v = length-object_bytes host 8 v

-- On a little-endian machine the copy stores what the shifts would store.
little_endian_copies :
    (v : ℕ)
    → (encode_fixed32 little_endian v ≡ shifted_bytes32 v)
      × (encode_fixed64 little_endian v ≡ shifted_bytes64 v)
unfolding encode_fixed32 encode_fixed64 object_bytes le_bytes shifted_bytes32 shifted_bytes64
little_endian_copies v = (ground arith, ground arith)

-- A word read at an offset.
module _ (host : ByteOrder) (front : List ℕ) (v : ℕ) (rest : List ℕ) (off : ℕ) where
  pub decode_fixed32_at :
      off ≡ length front
      → v < 2 ^ 32
      → decode_fixed32 host (drop off (front ++ (encode_fixed32 host v ++ rest))) ≡ v
  decode_fixed32_at e h =
      let tail = encode_fixed32 host v ++ rest in
      ap (λ (t : ℕ). decode_fixed32 host (drop t (front ++ tail))) e
      ∙ ap (decode_fixed32 host) (drop-length front tail)
      ∙ decode_fixed32-encode_fixed32 host v rest h

  pub decode_fixed64_at :
      off ≡ length front
      → v < 2 ^ 64
      → decode_fixed64 host (drop off (front ++ (encode_fixed64 host v ++ rest))) ≡ v
  decode_fixed64_at e h =
      let tail = encode_fixed64 host v ++ rest in
      ap (λ (t : ℕ). decode_fixed64 host (drop t (front ++ tail))) e
      ∙ ap (decode_fixed64 host) (drop-length front tail)
      ∙ decode_fixed64-encode_fixed64 host v rest h
