-- ===== src/Redisdb/VersionEdit/Apply.antt =====
-- What the fields of a version edit (redisdb/db/versionedit.cc), stored one by one into a cleared
-- edit, come to.
use cpp_swiss_army_knife.Common.{
  ℕ, ◌≡◌, refl, sym, ap, ◌∙◌, Bool, true, false, List, [], ◌∷◌, ◌++◌, append_assoc, append-nil,
  arith, All, All-append,
}
use cpp_swiss_army_knife.Redisdb.VersionEdit.{
  VersionEdit, FileMetaData, initial_seeks, pair_less, insert_pair, set_compact_pointer,
  delete_file, add_file,
}
use cpp_swiss_army_knife.Redisdb.VersionEdit.Fields.{
  Field, name_field, log_field, prev_field, next_field, last_field,
}
use cpp_swiss_army_knife.Redisdb.VersionEdit.Layout.{
  apply_all, flag_field, pointer_fields, deleted_fields, file_fields,
}

-- The elements of a std::set of pairs in their order.
abbrev pub Ascending : List (ℕ × ℕ) → Type 0
Ascending [] = Unit {0}
Ascending (d ∷ ds) = All (λ x. pair_less d x ≡ true) ds × Ascending ds

abbrev pub Below : List (ℕ × ℕ) → List (ℕ × ℕ) → Type 0
Below acc ds = All (λ a. All (λ d. pair_less a d ≡ true) ds) acc

pair_less_asym : (p q : ℕ × ℕ) → pair_less p q ≡ true → pair_less q p ≡ false
unfolding pair_less
pair_less_asym (a, b) (c, d) h = ground arith

insert_pair_last :
    (d : ℕ × ℕ) (acc : List (ℕ × ℕ))
    → All (λ a. pair_less a d ≡ true) acc
    → insert_pair d acc ≡ acc ++ d ∷ []
unfolding insert_pair
insert_pair_last d [] h = refl
insert_pair_last d (a ∷ acc) h =
    rw (pair_less_asym a d h.0, h.0) (ap (λ (t : List (ℕ × ℕ)). a ∷ t) (insert_pair_last d acc h.1))

Below-first :
    (d : ℕ × ℕ) (ds acc : List (ℕ × ℕ)) → Below acc (d ∷ ds) → All (λ a. pair_less a d ≡ true) acc
Below-first d ds [] h = tt
Below-first d ds (a ∷ acc) h = (h.0.0, Below-first d ds acc h.1)

Below-rest : (d : ℕ × ℕ) (ds acc : List (ℕ × ℕ)) → Below acc (d ∷ ds) → Below acc ds
Below-rest d ds [] h = tt
Below-rest d ds (a ∷ acc) h = (h.0.1, Below-rest d ds acc h.1)

pub pointers_applied :
    (ps : List (ℕ × List ℕ)) (e : VersionEdit) (xs : List Field)
    → apply_all e (pointer_fields ps xs)
      ≡ apply_all (record e { compactpointers = e.compactpointers ++ ps }) xs
unfolding set_compact_pointer
pointers_applied [] e xs = rw (append-nil e.compactpointers) refl
pointers_applied ((l, k) ∷ ps) e xs =
    pointers_applied ps (set_compact_pointer e l k) xs
    ∙ rw (append_assoc e.compactpointers ((l, k) ∷ []) ps) refl

pub deleted_applied :
    (ds : List (ℕ × ℕ)) (e : VersionEdit) (xs : List Field)
    → Ascending ds
    → Below e.deletedfiles ds
    → apply_all e (deleted_fields ds xs)
      ≡ apply_all (record e { deletedfiles = e.deletedfiles ++ ds }) xs
unfolding delete_file
deleted_applied [] e xs h below = rw (append-nil e.deletedfiles) refl
deleted_applied ((l, n) ∷ ds) e xs h below =
    let acc = e.deletedfiles in
    let last = insert_pair_last (l, n) acc (Below-first (l, n) ds acc below) in
    let more = All-append _ acc ((l, n) ∷ []) (Below-rest (l, n) ds acc below) (h.0, tt) in
    ap (λ (t : List (ℕ × ℕ)). apply_all (record e { deletedfiles = t }) (deleted_fields ds xs)) last
    ∙ deleted_applied ds (record e { deletedfiles = acc ++ (l, n) ∷ [] }) xs h.1 more
    ∙ rw (append_assoc acc ((l, n) ∷ []) ds) refl

-- The files of an edit are as AddFile makes them.
abbrev pub Fresh : List (ℕ × FileMetaData) → Type 0
Fresh fs = All (λ (p : ℕ × FileMetaData). p.1.allowedseeks ≡ initial_seeks) fs

pub files_applied :
    (fs : List (ℕ × FileMetaData)) (e : VersionEdit)
    → Fresh fs
    → apply_all e (file_fields fs) ≡ record e { newfiles = e.newfiles ++ fs }
unfolding add_file
files_applied [] e h = rw (append-nil e.newfiles) refl
files_applied ((l, f) ∷ fs) e h =
    ap
      (λ (t : ℕ).
        apply_all (record e { newfiles = e.newfiles ++ (l, record f { allowedseeks = t }) ∷ [] })
          (file_fields fs))
      (sym h.0)
    ∙ files_applied fs (record e { newfiles = e.newfiles ++ (l, f) ∷ [] }) h.1
    ∙ rw (append_assoc e.newfiles ((l, f) ∷ []) fs) refl

-- A value that is not written is the cleared one.
abbrev pub Default : {A : Type 0} → Bool → A → A → Type 0
Default true a b = Unit {0}
Default false a b = a ≡ b

-- Each optional field, stored into an edit that does not have it.
pub name_applied :
    (b : Bool) (s : List ℕ) (e : VersionEdit) (xs : List Field)
    → Default b s []
    → e.comparator ≡ []
    → e.hascomparator ≡ false
    → apply_all e (flag_field b (name_field s) xs)
      ≡ apply_all (record e { comparator = s; hascomparator = b }) xs
name_applied true s e xs h h1 h2 = refl
name_applied false s e xs h h1 h2 =
    ap (λ (t : List ℕ). apply_all (record e { comparator = t }) xs) (h1 ∙ sym h)
    ∙ ap (λ (t : Bool). apply_all (record e { comparator = s; hascomparator = t }) xs) h2

pub log_applied :
    (b : Bool) (n : ℕ) (e : VersionEdit) (xs : List Field)
    → Default b n 0
    → e.lognumber ≡ 0
    → e.haslognumber ≡ false
    → apply_all e (flag_field b (log_field n) xs)
      ≡ apply_all (record e { lognumber = n; haslognumber = b }) xs
log_applied true n e xs h h1 h2 = refl
log_applied false n e xs h h1 h2 =
    ap (λ (t : ℕ). apply_all (record e { lognumber = t }) xs) (h1 ∙ sym h)
    ∙ ap (λ (t : Bool). apply_all (record e { lognumber = n; haslognumber = t }) xs) h2

pub prev_applied :
    (b : Bool) (n : ℕ) (e : VersionEdit) (xs : List Field)
    → Default b n 0
    → e.prevlognumber ≡ 0
    → e.hasprevlognumber ≡ false
    → apply_all e (flag_field b (prev_field n) xs)
      ≡ apply_all (record e { prevlognumber = n; hasprevlognumber = b }) xs
prev_applied true n e xs h h1 h2 = refl
prev_applied false n e xs h h1 h2 =
    ap (λ (t : ℕ). apply_all (record e { prevlognumber = t }) xs) (h1 ∙ sym h)
    ∙ ap (λ (t : Bool). apply_all (record e { prevlognumber = n; hasprevlognumber = t }) xs) h2

pub next_applied :
    (b : Bool) (n : ℕ) (e : VersionEdit) (xs : List Field)
    → Default b n 0
    → e.nextfilenumber ≡ 0
    → e.hasnextfilenumber ≡ false
    → apply_all e (flag_field b (next_field n) xs)
      ≡ apply_all (record e { nextfilenumber = n; hasnextfilenumber = b }) xs
next_applied true n e xs h h1 h2 = refl
next_applied false n e xs h h1 h2 =
    ap (λ (t : ℕ). apply_all (record e { nextfilenumber = t }) xs) (h1 ∙ sym h)
    ∙ ap (λ (t : Bool). apply_all (record e { nextfilenumber = n; hasnextfilenumber = t }) xs) h2

pub last_applied :
    (b : Bool) (n : ℕ) (e : VersionEdit) (xs : List Field)
    → Default b n 0
    → e.lastsequence ≡ 0
    → e.haslastsequence ≡ false
    → apply_all e (flag_field b (last_field n) xs)
      ≡ apply_all (record e { lastsequence = n; haslastsequence = b }) xs
last_applied true n e xs h h1 h2 = refl
last_applied false n e xs h h1 h2 =
    ap (λ (t : ℕ). apply_all (record e { lastsequence = t }) xs) (h1 ∙ sym h)
    ∙ ap (λ (t : Bool). apply_all (record e { lastsequence = n; haslastsequence = t }) xs) h2
