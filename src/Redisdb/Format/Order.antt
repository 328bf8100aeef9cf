-- ===== src/Redisdb/Format/Order.antt =====
-- InternalKeyComparator (redisdb/db/dbformat.cc) is a comparator over any user comparator that is one.
use Prim.Native.Nat.{Ordering, compare}
use cpp_swiss_army_knife.Common.{
  ℕ, ◌≤◌, ◌<◌, ◌^◌, ◌≡◌, ◌≢◌, ap, sym, ◌∙◌, List, [], ◌++◌, some, length, drop, length-drop,
  take-append-drop, ◌-◌, arith,
}
use cpp_swiss_army_knife.Redisdb.Coding.{ByteOrder, put_fixed64, encode_fixed64}
use cpp_swiss_army_knife.Redisdb.Coding.Fixed.{IsBytes, decode_fixed64-inj}
use cpp_swiss_army_knife.Redisdb.Comparator.{Comparator, IsComparator, flip}
use cpp_swiss_army_knife.Redisdb.Format.{
  ParsedInternalKey, extract_user_key, tag_of, seek_tag, internal_compare, internal_separator,
  internal_successor, internal, append_internal_key, type_code, max_sequence_number, packed,
}
use cpp_swiss_army_knife.Redisdb.Format.Keys.{
  extract_user_key-put, tag_of-put, append_internal_key_lem, packed_value, packed-lt,
  internal_key_of, type_code_small,
}
use mathlib.Core.Path.{ap₂}

-- Internal keys, with their eight bytes behind a user key that satisfies P.
abbrev pub IsInternalKey : ByteOrder → (List ℕ → Type 0) → List ℕ → Type 0
IsInternalKey host P a =
    (8 ≤ length a) × IsBytes (drop (length a - 8) a) × P (extract_user_key host a)

module _ (host : ByteOrder) {P : List ℕ → Type 0} (user : Comparator)
    (law : IsComparator P user) where
  refl_internal : (a : List ℕ) → internal_compare host user a a ≡ Ordering.eq
  unfolding internal_compare
  refl_internal a = ground (arith, law.compare_refl (extract_user_key host a))

  user_eq :
      (a b : List ℕ)
      → internal_compare host user a b ≡ Ordering.eq
      → user.compare (extract_user_key host a) (extract_user_key host b) ≡ Ordering.eq
  unfolding internal_compare
  user_eq a b h = ground arith

  tags_eq :
      (a b : List ℕ)
      → user.compare (extract_user_key host a) (extract_user_key host b) ≡ Ordering.eq
      → internal_compare host user a b ≡ Ordering.eq
      → tag_of host a ≡ tag_of host b
  unfolding internal_compare
  tags_eq a b e h = ground arith

  last_eight : (a : List ℕ) → 8 ≤ length a → length (drop (length a - 8) a) ≡ 8
  last_eight a h = omega (arith, length-drop (length a - 8) a)

  eq_internal :
      (a b : List ℕ)
      → IsInternalKey host P a
      → IsInternalKey host P b
      → internal_compare host user a b ≡ Ordering.eq
      → a ≡ b
  unfolding extract_user_key tag_of
  eq_internal a b (la, ta, pa) (lb, tb, pb) h =
      let e = user_eq a b h in
      let users = law.compare_eq (extract_user_key host a) (extract_user_key host b) pa pb e in
      let tags =
        decode_fixed64-inj host (drop (length a - 8) a) (drop (length b - 8) b) ta tb
          (last_eight a la) (last_eight b lb) (tags_eq a b e h) in
      sym (take-append-drop (length a - 8) a)
      ∙ ap₂ ◌++◌ users tags
      ∙ take-append-drop (length b - 8) b

  congr_internal :
      (a b d : List ℕ)
      → internal_compare host user a b ≡ Ordering.eq
      → internal_compare host user a d ≡ internal_compare host user b d
  unfolding internal_compare
  congr_internal a b d h = ground (
    arith,
    law.compare_congr (extract_user_key host a) (extract_user_key host b) (extract_user_key host d),
  )

  trans_internal :
      (a b d : List ℕ)
      → internal_compare host user a b ≡ Ordering.lt
      → internal_compare host user b d ≡ Ordering.lt
      → internal_compare host user a d ≡ Ordering.lt
  unfolding internal_compare
  trans_internal a b d h k =
      let ua = extract_user_key host a in
      let ub = extract_user_key host b in
      let ud = extract_user_key host d in
      ground (
        arith,
        law.compare_trans ua ub ud,
        law.compare_congr ua ub ud,
        law.compare_congr ub ud ua,
        law.compare_flip ua ub,
        law.compare_flip ua ud,
      )

  flip_internal :
      (a b : List ℕ) → internal_compare host user b a ≡ flip (internal_compare host user a b)
  unfolding internal_compare
  flip_internal a b =
      ground (arith, law.compare_flip (extract_user_key host a) (extract_user_key host b))

  -- A shortened key: a user key above the old one, with the largest tag.
  put_above :
      (a tmp : List ℕ)
      → user.compare (extract_user_key host a) tmp ≡ Ordering.lt
      → internal_compare host user a (put_fixed64 host tmp seek_tag) ≡ Ordering.lt
  unfolding internal_compare put_fixed64
  put_above a tmp h =
      ground (
        arith,
        ap (user.compare (extract_user_key host a)) (extract_user_key-put host tmp seek_tag),
      )

  separator_ge_internal :
      (a b : List ℕ) → internal_compare host user a (internal_separator host user a b) ≢ Ordering.gt
  unfolding internal_separator
  separator_ge_internal a b =
      let ua = extract_user_key host a in
      let tmp = user.find_shortest_separator ua (extract_user_key host b) in
      ground (arith, refl_internal a, put_above a tmp)

  put_below :
      (a b tmp : List ℕ)
      → user.compare tmp (extract_user_key host b) ≡ Ordering.lt
      → internal_compare host user (put_fixed64 host tmp seek_tag) b ≡ Ordering.lt
  unfolding internal_compare put_fixed64
  put_below a b tmp h = ground (
    arith,
    ap (λ x. user.compare x (extract_user_key host b)) (extract_user_key-put host tmp seek_tag),
  )

  user_le :
      (a b : List ℕ)
      → internal_compare host user a b ≡ Ordering.lt
      → user.compare (extract_user_key host a) (extract_user_key host b) ≢ Ordering.gt
  unfolding internal_compare
  user_le a b h = ground arith

  separator_lt_internal :
      (a b : List ℕ)
      → P (extract_user_key host a)
      → internal_compare host user a b ≡ Ordering.lt
      → internal_compare host user (internal_separator host user a b) b ≡ Ordering.lt
  unfolding internal_separator
  separator_lt_internal a b p h =
      let ua = extract_user_key host a in
      let ub = extract_user_key host b in
      let tmp = user.find_shortest_separator ua ub in
      ground (
        arith,
        user_le a b h,
        law.separator_lt ua ub p,
        law.separator_eq ua ub,
        put_below a b tmp,
        law.compare_refl ua,
      )

  separator_eq_internal :
      (a b : List ℕ)
      → internal_compare host user a b ≡ Ordering.eq
      → internal_separator host user a b ≡ a
  unfolding internal_separator
  separator_eq_internal a b h =
      let ua = extract_user_key host a in
      let ub = extract_user_key host b in
      rw (law.separator_eq ua ub (user_eq a b h), law.compare_refl ua) (ground arith)

  successor_ge_internal :
      (a : List ℕ) → internal_compare host user a (internal_successor host user a) ≢ Ordering.gt
  unfolding internal_successor
  successor_ge_internal a =
      let ua = extract_user_key host a in
      ground (arith, refl_internal a, put_above a (user.find_short_successor ua))

  -- Where the user comparator meets the contract IsComparator on the keys that satisfy P, so does
  -- InternalKeyComparator on the internal keys, of eight bytes behind a user key that satisfies P:
  -- its Compare is reflexive, antisymmetric and transitive, respects equal keys and tells different
  -- internal keys apart, FindShortestSeparator(a, b) lies between a and b when a is before b, and
  -- FindShortSuccessor(a) is not before a.
  pub internal-IsComparator : IsComparator (IsInternalKey host P) (internal host user)
  internal-IsComparator = record {
    compare_refl = refl_internal;
    compare_eq = eq_internal;
    compare_flip = flip_internal;
    compare_congr = congr_internal;
    compare_trans = trans_internal;
    separator_ge = λ a b p h. separator_ge_internal a b;
    separator_lt = λ a b p h. separator_lt_internal a b p.2 h;
    separator_eq = separator_eq_internal;
    successor_ge = λ a p. successor_ge_internal a;
  }

module _ (host : ByteOrder) (user : Comparator) where
  internal_compare_tags :
      (u v : List ℕ) (m n : ℕ)
      → m < 2 ^ 64
      → n < 2 ^ 64
      → internal_compare host user (u ++ encode_fixed64 host m) (v ++ encode_fixed64 host n)
        ≡ elim (user.compare u v) [
          | Ordering.lt ↦ Ordering.lt
          | Ordering.gt ↦ Ordering.gt
          | Ordering.eq ↦ compare n m
        ]
  unfolding internal_compare
  internal_compare_tags u v m n hm hn =
      let eu = extract_user_key-put host u m in
      let ev = extract_user_key-put host v n in
      let em = tag_of-put host u m hm in
      let en = tag_of-put host v n hn in ground (arith, eu, ev, em, en, ap₂ user.compare eu ev)

  -- On internal keys made by AppendInternalKey with sequence numbers of at most kMaxSequenceNumber,
  -- which fails no assert, InternalKeyComparator::Compare is the lexicographic order: the user
  -- comparator on the user keys, then the larger sequence number first, then the larger type first.
  pub internal_compare-append :
      (a b : ParsedInternalKey)
      → a.sequence ≤ max_sequence_number
      → b.sequence ≤ max_sequence_number
      → (x : List ℕ) × (y : List ℕ) × (append_internal_key host [] a ≡ some x)
        × (append_internal_key host [] b ≡ some y)
        × (internal_compare host user x y ≡ elim (user.compare a.userkey b.userkey) [
          | Ordering.lt ↦ Ordering.lt
          | Ordering.gt ↦ Ordering.gt
          | Ordering.eq ↦ elim (compare b.sequence a.sequence) [
            | Ordering.lt ↦ Ordering.lt
            | Ordering.gt ↦ Ordering.gt
            | Ordering.eq ↦ compare (type_code b.type) (type_code a.type)
          ]
        ])
  internal_compare-append a b ha hb =
      let ta : ℕ = packed a.sequence a.type in
      let tb : ℕ = packed b.sequence b.type in
      (
        internal_key_of host a,
        internal_key_of host b,
        append_internal_key_lem host [] a ha,
        append_internal_key_lem host [] b hb,
        internal_compare_tags a.userkey b.userkey ta tb (packed-lt a.sequence a.type ha)
              (packed-lt b.sequence b.type hb)
            ∙ ground (
              arith,
              packed_value a.sequence a.type ha,
              packed_value b.sequence b.type hb,
              type_code_small a.type,
              type_code_small b.type,
            ),
      )
