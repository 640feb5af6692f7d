-- ===== src/Validation/Cpcv.antt =====
-- aqr/validation/cpcv.py. Timestamps are numbers; a numpy mask of length T is its values at the
-- indices below T. The float product `int(T * embargo_pct)` is the argument `embargo_size`.
pub mod Folds
pub mod Purging
pub mod Splits
pub mod Paths
mod Examples
use pigeon_trade.Common.{
  ℕ, zero, suc, ◌+◌, ◌-◌, ◌*◌, ◌/◌, min, Bool, true, false, ◌&&◌, ◌||◌, Option, none, some, List,
  [], ◌∷◌, map, if◌then◌else◌, ltb, leb, eqb, length, get_elem?, keep,
}
use pigeon_trade.Common.Options.{◌>>=◌, traverse}
use pigeon_trade.Validation.Combinations.{combinations, comb, range_from}

abbrev pub Mask : Type 0
Mask = ℕ → Bool

-- (start, end): the indices from `start` up to `end`, which is not in it
abbrev pub Fold : Type 0
Fold = ℕ × ℕ

-- `folds[i]` as the loop builds it: the last fold takes the rest.
unfoldable pub fold_at : ℕ → ℕ → ℕ → Fold
fold_at t n i = (i * (t / n), if ltb i (n - 1) then (i + 1) * (t / n) else t)

unfoldable pub folds : ℕ → ℕ → List Fold
unfolding range_from
folds t n = map (fold_at t n) (range_from 0 n)

-- `mask[lo:hi] = value`
unfoldable pub fill : ℕ → ℕ → Bool → Mask → Mask
fill lo hi value mask i = if leb lo i && ltb i hi then value else mask i

-- timestamps[i], for an index in range
abbrev pub obs_start : List ℕ → ℕ → ℕ
obs_start timestamps i = elim (get_elem? timestamps i) [ none ↦ 0 | some t ↦ t ]

-- label_end_times.iloc[i] if i < len(label_end_times) else obs_start
abbrev pub label_end : List ℕ → List ℕ → ℕ → ℕ
label_end timestamps labels i = elim (get_elem? labels i) [
  | none ↦ obs_start timestamps i
  | some t ↦ t
]

-- label_end >= t_start and obs_start <= t_end
unfoldable pub overlaps : List ℕ → List ℕ → ℕ → ℕ → ℕ → Bool
overlaps timestamps labels t_start t_end i =
    leb t_start (label_end timestamps labels i) && leb (obs_start timestamps i) t_end

abbrev clear : ℕ → Mask → Mask
clear i mask j = if eqb j i then false else mask j

-- The loop `for i in indices` of the purge.
unfoldable pub purge : (ℕ → Bool) → List ℕ → Mask → Mask
purge test [] mask = mask
purge test (i ∷ indices) mask =
    purge test indices (if mask i then (if test i then clear i mask else mask) else mask)

last_of : List ℕ → Option ℕ
last_of [] = none
last_of (x ∷ []) = some x
last_of (x ∷ y ∷ xs) = last_of (y ∷ xs)

-- `timestamps[end - 1]`: for `end = 0` the index is -1, the last element. `none` is IndexError.
unfoldable pub window_end : List ℕ → ℕ → Option ℕ
unfolding last_of
window_end timestamps zero = last_of timestamps
window_end timestamps (suc e) = get_elem? timestamps e

-- The purge and the embargo of one test window.
unfoldable pub purge_window : List ℕ → List ℕ → ℕ → Fold → Mask → Option Mask
unfolding purge window_end fill overlaps range_from
purge_window timestamps labels embargo_size (s, e) mask = do
  t_start ← get_elem? timestamps s
  t_end ← window_end timestamps e
  let total = length timestamps
  let purged = purge (overlaps timestamps labels t_start t_end) (range_from 0 total) mask
  some (fill e (min (e + embargo_size) total) false purged)

unfoldable pub purge_windows : List ℕ → List ℕ → ℕ → List Fold → Mask → Option Mask
purge_windows timestamps labels embargo_size [] mask = some mask
purge_windows timestamps labels embargo_size (w ∷ ws) mask = do
  mask' ← purge_window timestamps labels embargo_size w mask
  purge_windows timestamps labels embargo_size ws mask'

-- test_mask, filled range by range
unfoldable pub test_mask : List Fold → Mask
unfolding fill
test_mask [] i = false
test_mask ((s, e) ∷ ranges) i = fill s e true (test_mask ranges) i

abbrev pub flip : Mask → Mask
flip mask i = if mask i then false else true

-- indices[mask]
abbrev pub select : ℕ → Mask → List ℕ
select total mask = keep mask (range_from 0 total)

abbrev pub Split : Type 0
Split = List ℕ × List ℕ

-- One round of the loop over the combinations, for the test ranges of the combination.
unfoldable pub split_one : List ℕ → List ℕ → ℕ → List Fold → Option Split
unfolding purge_windows test_mask
split_one timestamps labels embargo_size ranges = do
  let test = test_mask ranges
  train ← purge_windows timestamps labels embargo_size ranges (flip test)
  some (select (length timestamps) train, select (length timestamps) test)

pub record CombinatorialPurgedCv : Type 0 where
  pub n_splits : ℕ
  pub n_test_splits : ℕ

-- __init__; `none` is its ValueError
unfoldable pub make : ℕ → ℕ → Option CombinatorialPurgedCv
make n k = if leb n k then none else some (record { n_splits = n; n_test_splits = k })

pub n_paths : CombinatorialPurgedCv → ℕ
n_paths cv = comb cv.n_splits cv.n_test_splits

abbrev pub fold_of : List Fold → ℕ → Fold
fold_of fs i = elim (get_elem? fs i) [ none ↦ (0, 0) | some f ↦ f ]

-- The test ranges of the combinations, in the order of `combinations(range(n), k)`.
unfoldable pub test_paths : ℕ → ℕ → ℕ → List (List Fold)
unfolding folds
test_paths total n k =
    map (λ combo. map (fold_of (folds total n)) combo) (combinations k (range_from 0 n))

-- `split`, run to its end; without `label_end_times` the labels are the timestamps.
unfoldable pub split : CombinatorialPurgedCv → List ℕ → Option (List ℕ) → ℕ → Option (List Split)
split cv timestamps label_end_times embargo_size =
    traverse
      (split_one timestamps (elim label_end_times [ none ↦ timestamps | some l ↦ l ]) embargo_size)
      (test_paths (length timestamps) cv.n_splits cv.n_test_splits)

-- _get_test_ranges; `none` is its ValueError, or the ZeroDivisionError of `T // 0`
pub get_test_ranges : ℕ → ℕ → ℕ → Option (List (List Fold))
get_test_ranges total n k = if ltb total n || eqb n 0 then none else some (test_paths total n k)

-- One fold of `purged_kfold_indices`.
pub kfold_one : List ℕ → List ℕ → ℕ → Fold → Option Split
unfolding purge_window test_mask
kfold_one timestamps labels embargo_size fold = do
  let test = test_mask (fold ∷ [])
  train ← purge_window timestamps labels embargo_size fold (flip test)
  some (select (length timestamps) train, select (length timestamps) test)

-- purged_kfold_indices, run to its end; `none` also where `T // 0` raises
pub purged_kfold_indices : List ℕ → List ℕ → ℕ → ℕ → Option (List Split)
purged_kfold_indices timestamps labels n embargo_size =
    if eqb n 0
    then none
    else traverse (kfold_one timestamps labels embargo_size) (folds (length timestamps) n)
