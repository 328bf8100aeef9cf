-- ===== src/Redisdb/VersionEdit/Setters.antt =====
-- What the setters of VersionEdit (redisdb/db/versionedit.h) make of an edit, and that it comes back
-- from its encoding.
use cpp_swiss_army_knife.Common.{
  ℕ, ◌≡◌, refl, ◌∙◌, true, ◌||◌, List, [], ◌∷◌, arith, All, All-append, Bool-cases, inl, inr,
}
use cpp_swiss_army_knife.Redisdb.VersionEdit.{
  VersionEdit, pair_less, insert_pair, set_comparator_name, set_log_number, set_prev_log_number,
  set_next_file, set_last_sequence, set_compact_pointer, add_file, delete_file,
}
use cpp_swiss_army_knife.Redisdb.VersionEdit.Apply.{Ascending}
use cpp_swiss_army_knife.Redisdb.VersionEdit.RoundTrip.{IsValid}
use cpp_swiss_army_knife.Redisdb.VersionEdit.Calls.{
  Call, name_call, log_call, prev_call, next_call, last_call, pointer_call, delete_call, file_call,
  run_call, run_calls, same_pair, contains, inserted,
}

pair_less_trans :
    (p q r : ℕ × ℕ) → pair_less p q ≡ true → pair_less q r ≡ true → pair_less p r ≡ true
unfolding pair_less
pair_less_trans (a, b) (c, d) (x, y) h k = ground arith

All-after :
    (p q : ℕ × ℕ) (qs : List (ℕ × ℕ))
    → pair_less p q ≡ true
    → All (λ x. pair_less q x ≡ true) qs
    → All (λ x. pair_less p x ≡ true) qs
All-after p q [] h hs = tt
All-after p q (r ∷ qs) h hs = (pair_less_trans p q r h hs.0, All-after p q qs h hs.1)

All-insert_pair :
    (P : ℕ × ℕ → Type 0) (p : ℕ × ℕ) (qs : List (ℕ × ℕ)) → P p → All P qs → All P (insert_pair p qs)
unfolding insert_pair
All-insert_pair P p [] h hs = (h, tt)
All-insert_pair P p (q ∷ qs) h hs = elim (Bool-cases (pair_less p q)) [
  | inl e ↦ rw (e) (h, hs)
  | inr e ↦ elim (Bool-cases (pair_less q p)) [
    | inl e' ↦ rw (e, e') (hs.0, All-insert_pair P p qs h hs.1)
    | inr e' ↦ rw (e, e') hs
  ]
]

insert_pair-Ascending :
    (p : ℕ × ℕ) (qs : List (ℕ × ℕ)) → Ascending qs → Ascending (insert_pair p qs)
unfolding insert_pair
insert_pair-Ascending p [] h = (tt, tt)
insert_pair-Ascending p (q ∷ qs) h = elim (Bool-cases (pair_less p q)) [
  | inl e ↦ rw (e) ((e, All-after p q qs e h.0), h)
  | inr e ↦ elim (Bool-cases (pair_less q p)) [
    | inl e' ↦ rw (e, e') (All-insert_pair _ p qs e' h.0, insert_pair-Ascending p qs h.1)
    | inr e' ↦ rw (e, e') h
  ]
]

-- The set holds what is inserted and what it held.
insert_pair-contains :
    (x p : ℕ × ℕ) (qs : List (ℕ × ℕ))
    → contains x (insert_pair p qs) ≡ (same_pair x p || contains x qs)
unfolding insert_pair pair_less
insert_pair-contains x p [] = refl
insert_pair-contains (a, b) (c, d) ((u, v) ∷ qs) =
    ground (arith, insert_pair-contains (a, b) (c, d) qs)

pub inserted-contains :
    (x : ℕ × ℕ) (ps qs : List (ℕ × ℕ))
    → contains x (inserted ps qs) ≡ (contains x ps || contains x qs)
inserted-contains x [] qs = refl
inserted-contains x (p ∷ ps) qs =
    inserted-contains x ps (insert_pair p qs) ∙ ground (arith, insert_pair-contains x p qs)

-- Each call keeps an edit as the round trip asks for it.
call-IsValid : (e : VersionEdit) (c : Call) → IsValid e → IsValid (run_call e c)
unfolding set_comparator_name set_log_number set_prev_log_number set_next_file set_last_sequence
    set_compact_pointer add_file delete_file
call-IsValid e (name_call s) (hc, hl, hp, hn, hs, hd, hf) = (tt, hl, hp, hn, hs, hd, hf)
call-IsValid e (log_call n) (hc, hl, hp, hn, hs, hd, hf) = (hc, tt, hp, hn, hs, hd, hf)
call-IsValid e (prev_call n) (hc, hl, hp, hn, hs, hd, hf) = (hc, hl, tt, hn, hs, hd, hf)
call-IsValid e (next_call n) (hc, hl, hp, hn, hs, hd, hf) = (hc, hl, hp, tt, hs, hd, hf)
call-IsValid e (last_call n) (hc, hl, hp, hn, hs, hd, hf) = (hc, hl, hp, hn, tt, hd, hf)
call-IsValid e (pointer_call l k) h = h
call-IsValid e (delete_call l n) (hc, hl, hp, hn, hs, hd, hf) =
    (hc, hl, hp, hn, hs, insert_pair-Ascending (l, n) e.deletedfiles hd, hf)
call-IsValid e (file_call l f) (hc, hl, hp, hn, hs, hd, hf) =
    (hc, hl, hp, hn, hs, hd, All-append _ e.newfiles _ hf (refl, tt))

pub run_calls-IsValid : (cs : List Call) (e : VersionEdit) → IsValid e → IsValid (run_calls e cs)
run_calls-IsValid [] e h = h
run_calls-IsValid (c ∷ cs) e h = run_calls-IsValid cs (run_call e c) (call-IsValid e c h)
