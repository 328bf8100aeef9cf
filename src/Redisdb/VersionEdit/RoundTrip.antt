-- ===== src/Redisdb/VersionEdit/RoundTrip.antt =====
-- VersionEdit::EncodeTo and DecodeFrom (redisdb/db/versionedit.cc): the round trip, and that decoding
-- ends on every byte string.
use cpp_swiss_army_knife.Common.{
  ℕ, ◌≡◌, refl, ap, ◌∙◌, List, [], ◌++◌, some, none, length, arith, All,
}
use cpp_swiss_army_knife.Redisdb.VersionEdit.{VersionEdit, clear, encode_to, decode_from}
use cpp_swiss_army_knife.Redisdb.VersionEdit.Fields.{FieldFits}
use cpp_swiss_army_knife.Redisdb.VersionEdit.Layout.{
  fields_of, record_of, apply_all, decode_loop-record_of, encode_to-fields,
}
use cpp_swiss_army_knife.Redisdb.VersionEdit.Apply.{
  Default, Ascending, Fresh, name_applied, log_applied, prev_applied, next_applied, last_applied,
  pointers_applied, deleted_applied, files_applied,
}

-- An edit as the setters leave it: what it does not have is cleared, its deleted files stand in the
-- order of the set, and its files are as AddFile makes them.
abbrev pub IsValid : VersionEdit → Type 0
IsValid e =
    Default e.hascomparator e.comparator []
    × Default e.haslognumber e.lognumber 0
    × Default e.hasprevlognumber e.prevlognumber 0
    × Default e.hasnextfilenumber e.nextfilenumber 0
    × Default e.haslastsequence e.lastsequence 0
    × Ascending e.deletedfiles
    × Fresh e.newfiles

fields_applied :
    (old e : VersionEdit)
    → IsValid e
    → apply_all (clear old) (fields_of e)
      ≡ record e { compactpointers = old.compactpointers ++ e.compactpointers }
unfolding clear
fields_applied old e (hc, hl, hp, hn, hs, hd, hf) =
    let c0 = clear old in
    let c1 : VersionEdit = record c0 {
      comparator = e.comparator;
      hascomparator = e.hascomparator;
    } in
    let c2 : VersionEdit = record c1 { lognumber = e.lognumber; haslognumber = e.haslognumber } in
    let c3 : VersionEdit = record c2 {
      prevlognumber = e.prevlognumber;
      hasprevlognumber = e.hasprevlognumber;
    } in
    let c4 : VersionEdit = record c3 {
      nextfilenumber = e.nextfilenumber;
      hasnextfilenumber = e.hasnextfilenumber;
    } in
    let c5 : VersionEdit = record c4 {
      lastsequence = e.lastsequence;
      haslastsequence = e.haslastsequence;
    } in
    let c6 : VersionEdit = record c5 {
      compactpointers = old.compactpointers ++ e.compactpointers;
    } in
    let c7 : VersionEdit = record c6 { deletedfiles = e.deletedfiles } in
    name_applied e.hascomparator e.comparator c0 _ hc refl refl
    ∙ log_applied e.haslognumber e.lognumber c1 _ hl refl refl
    ∙ prev_applied e.hasprevlognumber e.prevlognumber c2 _ hp refl refl
    ∙ next_applied e.hasnextfilenumber e.nextfilenumber c3 _ hn refl refl
    ∙ last_applied e.haslastsequence e.lastsequence c4 _ hs refl refl
    ∙ pointers_applied e.compactpointers c5 _
    ∙ deleted_applied e.deletedfiles c6 _ hd tt
    ∙ files_applied e.newfiles c7 hf

-- EncodeTo fails no assert, and DecodeFrom of what it writes gives the edit back with status OK,
-- whatever edit it decodes into, when the edit is as its setters leave it (what it does not have is
-- cleared, deleted files in the order of the set), its levels are below kNumLevels, its numbers and
-- lengths fit in their words and its internal keys are not empty; but the compact pointers of the
-- edit that is decoded into stay in front of the ones read, since clear() does not remove them.
pub decode_from-encode_to :
    (old e : VersionEdit)
    → IsValid e
    → All FieldFits (fields_of e)
    → (bytes : List ℕ) × (encode_to e [] ≡ some bytes)
      × (decode_from old bytes
          ≡ some (record e { compactpointers = old.compactpointers ++ e.compactpointers }, none))
unfolding decode_from
decode_from-encode_to old e valid fits = (
  record_of (fields_of e),
  encode_to-fields e [] fits,
  decode_loop-record_of (fields_of e) (length (record_of (fields_of e))) (clear old) fits
        (omega arith)
      ∙ ap (λ (t : VersionEdit). some (t, none)) (fields_applied old e valid),
)
