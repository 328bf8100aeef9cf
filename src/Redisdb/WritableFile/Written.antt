-- ===== src/Redisdb/WritableFile/Written.antt =====
-- What WriteUnbuffered leaves in the file (redisdb/db/env.h).
use cpp_swiss_army_knife.Common.{
  ℕ, zero, suc, ◌+◌, ◌≤◌, ◌<◌, ◌≡◌, refl, sym, ap, ◌∙◌, subst, Bool, true, false, List, [], ◌∷◌,
  ◌++◌, Option, none, some, length, take, drop, append-nil, append_assoc, length-append,
  take-append-drop, arith,
}
use cpp_swiss_army_knife.Redisdb.WritableFile.{WriteResult, took, interrupted, failed, write_loop}

-- The answers by which the loop makes progress.
abbrev pub progress : List WriteResult → ℕ
progress [] = 0
progress (took zero ∷ results) = progress results
progress (took (suc n) ∷ results) = 1 + progress results
progress (interrupted ∷ results) = progress results
progress (failed ∷ results) = progress results

-- What the loop gives, started with n answers of progress, the bytes `before` and data to write.
-- Each byte that is written needs at most one answer of progress.
abbrev pub WrittenBy : ℕ → List ℕ → List ℕ → Option (Bool × List ℕ × List WriteResult) → Type 0
WrittenBy n before data' none = n < length data'
WrittenBy n before data' (some (true, after, results)) =
    (after ≡ before ++ data') × (n + length before ≤ progress results + length after)
WrittenBy n before data' (some (false, after, results)) =
    (p : List ℕ) × (q : List ℕ) × (data' ≡ p ++ q)
    × (after ≡ before ++ p)
    × (n + length before ≤ progress results + length after)

further :
    (n : ℕ) (before p q : List ℕ) (r : Option (Bool × List ℕ × List WriteResult))
    → 1 ≤ length p
    → WrittenBy n (before ++ p) q r
    → WrittenBy (1 + n) before (p ++ q) r
further n before p q none l h = omega (arith, length-append p q)
further n before p q (some (true, after, results)) l h =
    (h.0 ∙ append_assoc before p q, omega (arith, length-append before p, h.1))
further n before p q (some (false, after, results)) l h = (
  p ++ h.0,
  h.1,
  ap (λ (t : List ℕ). p ++ t) h.2 ∙ sym (append_assoc p h.0 h.1),
  h.3 ∙ append_assoc before p h.0,
  omega (arith, length-append before p, h.4),
)

pub write_loop-WrittenBy :
    (results : List WriteResult) (before data' : List ℕ)
    → WrittenBy (progress results) before data' (write_loop results before data')
unfolding write_loop
write_loop-WrittenBy results before [] = (sym (append-nil before), omega arith)
write_loop-WrittenBy [] before (d ∷ data') = omega arith
write_loop-WrittenBy (took zero ∷ results) before (d ∷ data') =
    subst
      (λ (t : List ℕ).
        WrittenBy (progress results) before (d ∷ data') (write_loop results t (d ∷ data')))
      (sym (append-nil before)) (write_loop-WrittenBy results before (d ∷ data'))
write_loop-WrittenBy (took (suc n) ∷ results) before (d ∷ data') =
    subst
      (λ (t : List ℕ).
        WrittenBy (1 + progress results) before t
          (write_loop results (before ++ (d ∷ take n data')) (drop n data')))
      (ap (λ (t : List ℕ). d ∷ t) (take-append-drop n data'))
      (further (progress results) before (d ∷ take n data') (drop n data')
        (write_loop results (before ++ (d ∷ take n data')) (drop n data')) (omega arith)
        (write_loop-WrittenBy results (before ++ (d ∷ take n data')) (drop n data')))
write_loop-WrittenBy (interrupted ∷ results) before (d ∷ data') =
    write_loop-WrittenBy results before (d ∷ data')
write_loop-WrittenBy (failed ∷ results) before (d ∷ data') =
    ([], d ∷ data', refl, sym (append-nil before), omega arith)
