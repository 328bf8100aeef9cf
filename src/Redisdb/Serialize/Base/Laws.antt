-- ===== src/Redisdb/Serialize/Base/Laws.antt =====
-- The mutators of ParsedBaseMetaValue (redisdb/db/serialize.h) keep the object and the string behind
-- it in step.
use cpp_swiss_army_knife.Common.{
  ℕ, ◌+◌, ◌%◌, ◌^◌, ◌<◌, ◌≡◌, refl, ap, sym, ◌∙◌, true, List, [], ◌++◌, length, drop, store_at,
  store_at_middle, append-nil, append_assoc, length-append, arith,
}
use cpp_swiss_army_knife.Redisdb.Coding.{ByteOrder, encode_fixed32, decode_fixed32}
use cpp_swiss_army_knife.Redisdb.Coding.Fixed.{
  length-encode_fixed32, decode_fixed32_at, decode_fixed32-encode_fixed32,
}
use cpp_swiss_army_knife.Redisdb.Serialize.Clock.{update_version}
use cpp_swiss_army_knife.Redisdb.Serialize.Base.{
  ParsedBase, encode_base, parse_base, write_word, set_version_to_value, set_timestamp_to_value,
  set_count, modify_count, set_timestamp, renew_version, initial_meta_value,
}

-- What such a value stands for.
pub record Meta : Type 0 where
  pub count : ℕ
  pub version : ℕ
  pub timestamp : ℕ

pub record FitsInt32 (m : Meta) : Type 0 where
  pub count : m.count < 2 ^ 32
  pub version : m.version < 2 ^ 32
  pub timestamp : m.timestamp < 2 ^ 32

module _ (host : ByteOrder) where
  abbrev word : ℕ → List ℕ
  word = encode_fixed32 host

  -- The bytes of a value, as its writers lay them out.
  abbrev pub encoded : Meta → List ℕ
  encoded m =
      encode_base host (record {
        value = encode_fixed32 host m.count;
        version = m.version;
        timestamp = m.timestamp;
      })

  -- The object that the std::string* constructor makes of it.
  abbrev pub parsed : Meta → ParsedBase
  parsed m = record {
    writable = true;
    str = encoded m;
    user_size = 4;
    version = m.version;
    timestamp = m.timestamp;
    count = m.count;
  }

  length-encoded : (m : Meta) → length (encoded m) ≡ 12
  unfolding encode_base
  length-encoded m = omega (
    arith,
    length-append (word m.count) (word m.version ++ word m.timestamp),
    length-append (word m.version) (word m.timestamp),
    length-encode_fixed32 host m.count,
    length-encode_fixed32 host m.version,
    length-encode_fixed32 host m.timestamp,
  )

  -- The three words of an encoded value, each with what stands around it.
  module _ (m : Meta) where
    front : List ℕ
    front = word m.count ++ word m.version

    four : length (word m.count) ≡ 4
    four = length-encode_fixed32 host m.count

    eight : length front ≡ 8
    unfolding front
    eight = omega (
      arith,
      length-append (word m.count) (word m.version),
      length-encode_fixed32 host m.count,
      length-encode_fixed32 host m.version,
    )

    last_word : encoded m ≡ front ++ (word m.timestamp ++ [])
    unfolding front encode_base
    last_word =
        rw append-nil (sym (append_assoc (word m.count) (word m.version) (word m.timestamp)))

    read_count : m.count < 2 ^ 32 → decode_fixed32 host (encoded m) ≡ m.count
    unfolding encode_base
    read_count h = decode_fixed32-encode_fixed32 host m.count (word m.version ++ word m.timestamp) h

    read_version : m.version < 2 ^ 32 → decode_fixed32 host (drop 4 (encoded m)) ≡ m.version
    unfolding encode_base
    read_version h =
        decode_fixed32_at host (word m.count) m.version (word m.timestamp) 4 (sym four) h

    read_timestamp : m.timestamp < 2 ^ 32 → decode_fixed32 host (drop 8 (encoded m)) ≡ m.timestamp
    read_timestamp h =
        ap (λ x. decode_fixed32 host (drop 8 x)) last_word
        ∙ decode_fixed32_at host front m.timestamp [] 8 (sym eight) h

    write_count : (c : ℕ) → store_at (encoded m) 0 (word c) ≡ encoded (record m { count = c })
    unfolding encode_base
    write_count c =
        store_at_middle [] (word m.count) (word c) (word m.version ++ word m.timestamp) 0 refl
          (four ∙ sym (length-encode_fixed32 host c))

    write_version : (v : ℕ) → store_at (encoded m) 4 (word v) ≡ encoded (record m { version = v })
    unfolding encode_base
    write_version v =
        store_at_middle (word m.count) (word m.version) (word v) (word m.timestamp) 4 (sym four)
          (length-encode_fixed32 host m.version ∙ sym (length-encode_fixed32 host v))

    write_timestamp :
        (t : ℕ) → store_at (encoded m) 8 (word t) ≡ encoded (record m { timestamp = t })
    unfolding front
    write_timestamp t =
        ap (λ x. store_at x 8 (word t)) last_word
        ∙ store_at_middle front (word m.timestamp) (word t) [] 8 (sym eight)
            (length-encode_fixed32 host m.timestamp ∙ sym (length-encode_fixed32 host t))
        ∙ (unfold encode_base in
            rw append-nil (append_assoc (word m.count) (word m.version) (word t)))

  -- ParsedBaseMetaValue of what BaseMetaValue::Encode writes for a field count has the count as its
  -- user value, the version and the timestamp, when the three fit in 32 bits.
  pub parse_base-encoded : (m : Meta) → FitsInt32 m → parse_base host true (encoded m) ≡ parsed m
  unfolding parse_base
  parse_base-encoded m fits =
      rw (length-encoded m)
        (rw (read_count m fits.count, read_version m fits.version, read_timestamp m fits.timestamp))

  set_count-parsed :
      (m : Meta) (c : ℕ) → set_count host (parsed m) c ≡ parsed (record m { count = c })
  unfolding set_count write_word
  set_count-parsed m c = rw (write_count m c)

  -- ModifyCount on a parsed metadata value writes the sum modulo 2^32 both into the field and into
  -- the value's bytes: the result is what parsing the encoding of the changed metadata gives.
  pub modify_count-parsed :
      (m : Meta) (delta : ℕ)
      → modify_count host (parsed m) delta
        ≡ parsed (record m { count = (m.count + delta) % 2 ^ 32 })
  unfolding modify_count write_word
  modify_count-parsed m delta = rw (write_count m ((m.count + delta) % 2 ^ 32))

  set_timestamp-parsed :
      (m : Meta) (t : ℕ) → set_timestamp host (parsed m) t ≡ parsed (record m { timestamp = t })
  unfolding set_timestamp set_timestamp_to_value write_word
  set_timestamp-parsed m t = rw (length-encoded m) (rw (write_timestamp m t))

  renew_version-parsed :
      (m : Meta) (now : ℕ)
      → renew_version host (parsed m) now
        ≡ parsed (record m { version = update_version m.version now })
  unfolding renew_version set_version_to_value write_word
  renew_version-parsed m now =
      rw (length-encoded m) (rw (write_version m (update_version m.version now)))

  -- InitialMetaValue on a parsed metadata value sets the count and the timestamp to 0 and renews
  -- the version by UpdateVersion, in the fields and in the value's bytes alike.
  pub initial_meta_value-parsed :
      (m : Meta) (now : ℕ)
      → initial_meta_value host (parsed m) now
        ≡ parsed (record { count = 0; version = update_version m.version now; timestamp = 0 })
  unfolding initial_meta_value
  initial_meta_value-parsed m now =
      ap (λ p. renew_version host (set_timestamp host p 0) now) (set_count-parsed m 0)
      ∙ ap (λ p. renew_version host p now) (set_timestamp-parsed (record m { count = 0 }) 0)
      ∙ renew_version-parsed (record m { count = 0; timestamp = 0 }) now

  -- Every setter leaves the object that the changed value would be parsed to.
  pub setters-parsed :
      (m : Meta) (c t now : ℕ)
      → (set_count host (parsed m) c ≡ parsed (record m { count = c }))
        × (set_timestamp host (parsed m) t ≡ parsed (record m { timestamp = t }))
        × (renew_version host (parsed m) now
            ≡ parsed (record m { version = update_version m.version now }))
  setters-parsed m c t now =
      (set_count-parsed m c, set_timestamp-parsed m t, renew_version-parsed m now)
