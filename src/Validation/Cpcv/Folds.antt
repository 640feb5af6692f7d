-- ===== src/Validation/Cpcv/Folds.antt =====
-- The folds divide the observations (the loop over `n_splits` in split and purged_kfold_indices).
use native.Mathlib.Nat.{div-add-mod, zero-mul}
use pigeon_trade.Common.{
  ap, subst, ℕ, zero, suc, ◌+◌, ◌-◌, ◌*◌, ◌/◌, ◌≤◌, ◌<◌, List, [], ◌∷◌, map, ◌≡◌, arith,
}
use pigeon_trade.Validation.Combinations.{range_from}
use pigeon_trade.Validation.Cpcv.{Fold, fold_at, folds}

-- The ranges follow one another from `lo` to `hi`, with no gap and no overlap.
abbrev pub IsPartition : ℕ → List Fold → ℕ → Type 0
IsPartition lo [] hi = lo ≡ hi
IsPartition lo ((s, e) ∷ rest) hi = (s ≡ lo) × (s ≤ e) × IsPartition e rest hi

last_start_le : (t n : ℕ) → 0 < n → (n - 1) * (t / n) ≤ t
last_start_le t n h = grind (arith, div-add-mod t n)

last_index : (n i : ℕ) → i + 1 ≡ n → i ≡ n - 1
last_index n i e = omega arith

fold_at-IsPartition :
    (t n i k : ℕ)
    → 0 < n
    → i + suc k ≡ n
    → IsPartition (i * (t / n)) (map (fold_at t n) (range_from i (suc k))) t
unfolding fold_at range_from
fold_at-IsPartition t n i zero pos e =
    ground (arith, last_start_le t n pos, ap (λ (x : ℕ). x * (t / n)) (last_index n i e))
fold_at-IsPartition t n i (suc k) pos e = ground (arith, fold_at-IsPartition t n (suc i) k pos)

-- With at least one fold, the folds divide 0, ..., T - 1 into consecutive ranges; nothing is left
-- out, whatever the remainder of T by the number of folds.
pub folds-IsPartition : (t n : ℕ) → 0 < n → IsPartition 0 (folds t n) t
unfolding folds
folds-IsPartition t zero h = elim h [ ]
folds-IsPartition t (suc k) h =
    subst (λ (lo : ℕ). IsPartition lo (map (fold_at t (suc k)) (range_from 0 (suc k))) t)
      (zero-mul (t / suc k)) (fold_at-IsPartition t (suc k) 0 k h (omega arith))
