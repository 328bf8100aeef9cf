-- ===== src/Redisdb/Snapshot.antt =====
-- class Snapshot and SnapshotList (redisdb/db/snapshot.h). A failed assert is `none`.
mod Tests
use cpp_swiss_army_knife.Common.{
  ℕ, ◌≡◌, refl, sym, ap, ◌∙◌, subst, List, [], ◌∷◌, Option, none, some, Bool, true, false,
  Bool-cases, inl, inr, leb, ◌==◌, if◌then◌else◌,
}

pub record Snapshot : Type 0 where
  pub sequencenumber : ℕ

unfoldable pub empty : List Snapshot → Bool
empty [] = true
empty (s ∷ lists) = false

unfoldable pub oldest : List Snapshot → Option Snapshot
oldest [] = none
oldest (s ∷ lists) = some s

unfoldable pub newest : List Snapshot → Option Snapshot
newest [] = none
newest (s ∷ []) = some s
newest (s ∷ t ∷ lists) = newest (t ∷ lists)

-- The assert of NewSnapshot, `empty() || newest() <= sequencenumber`
unfoldable pub is_newer : List Snapshot → ℕ → Bool
is_newer lists sequencenumber = elim (newest lists) [
  | none ↦ true
  | some s ↦ leb s.sequencenumber sequencenumber
]

-- The list afterwards, and the snapshot.
unfoldable pub new_snapshot : List Snapshot → ℕ → Option (List Snapshot × Snapshot)
new_snapshot lists sequencenumber =
    if is_newer lists sequencenumber
    then some (lists, record { sequencenumber = sequencenumber })
    else none

unfoldable pub delete_snapshot : List Snapshot → Snapshot → List Snapshot
delete_snapshot [] shapshot = []
delete_snapshot (s ∷ lists) shapshot =
    if s.sequencenumber == shapshot.sequencenumber
    then lists
    else s ∷ delete_snapshot lists shapshot

-- The lists that calls of NewSnapshot and DeleteSnapshot lead to.
pub data Reached : List Snapshot → Type 0 where
  fresh : Reached []
  taken :
      {lists lists' : List Snapshot} (sequencenumber : ℕ) (s : Snapshot)
      → Reached lists
      → new_snapshot lists sequencenumber ≡ some (lists', s)
      → Reached lists'
  released :
      {lists : List Snapshot} (s : Snapshot) → Reached lists → Reached (delete_snapshot lists s)

abbrev list_of : List Snapshot → Option (List Snapshot × Snapshot) → List Snapshot
list_of lists none = lists
list_of lists (some made) = made.0

list_of-new_snapshot :
    (lists : List Snapshot) (sequencenumber : ℕ)
    → list_of lists (new_snapshot lists sequencenumber) ≡ lists
unfolding new_snapshot
list_of-new_snapshot lists n = elim (Bool-cases (is_newer lists n)) [
  | inl e ↦ rw (e) refl
  | inr e ↦ rw (e) refl
]

new_snapshot_keeps :
    (lists lists' : List Snapshot) (sequencenumber : ℕ) (s : Snapshot)
    → new_snapshot lists sequencenumber ≡ some (lists', s)
    → lists' ≡ lists
new_snapshot_keeps lists lists' n s e = sym (ap (list_of lists) e) ∙ list_of-new_snapshot lists n

Reached-none : {lists : List Snapshot} → Reached lists → lists ≡ []
unfolding delete_snapshot
Reached-none fresh = refl
Reached-none (taken {lists = lists} {lists' = lists'} n s r e) =
    new_snapshot_keeps lists lists' n s e ∙ Reached-none r
Reached-none (released s r) =
    ap (λ (lists : List Snapshot). delete_snapshot lists s) (Reached-none r)

-- Every list of snapshots that calls of NewSnapshot and DeleteSnapshot lead to from the fresh one
-- answers true to empty(), and oldest() fails its assert, whatever snapshots are held.
pub oldest-Reached :
    (lists : List Snapshot) → Reached lists → (empty lists ≡ true) × (oldest lists ≡ none)
unfolding empty oldest
oldest-Reached lists r = (ap empty (Reached-none r), ap oldest (Reached-none r))
