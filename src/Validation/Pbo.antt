-- ===== src/Validation/Pbo.antt =====
-- aqr/validation/pbo.py, without the median of the rank degradation. A matrix is its columns, one of
-- returns for each strategy. Numbers and numpy's statistics of a column are a parameter; the PBO is
-- the number of splits with a negative logit, over the number of splits.
pub mod Best
pub mod Splits
mod Examples
use pigeon_trade.Common.{
  ℕ, zero, suc, ◌-◌, ◌*◌, ◌/◌, ◌%◌, Bool, not, Option, none, some, String, List, [], ◌∷◌, ◌++◌, map,
  if◌then◌else◌, ltb, eqb, length, get_elem?, take, drop, keep, any,
}
use pigeon_trade.Common.Options.{◌>>=◌, traverse}
use pigeon_trade.Validation.Combinations.{combinations, range_from}

pub record Statistics (F : Type 0) : Type 0 where
  zero_value : F
  is_zero : F → Bool
  le : F → F → Bool
  mean : List F → F
  std : List F → F
  divide : F → F → F

pub record Overfitting : Type 0 where
  overfit : ℕ
  n_combinations : ℕ
  verdict : String

-- 0.5 is what the code answers where there is nothing to split.
abbrev pub insufficient : Overfitting
insufficient = record { overfit = 0; n_combinations = 0; verdict = "insufficient" }

-- S
abbrev pub n_parts : ℕ → ℕ
n_parts n = let s = if eqb (n % 2) 0 then n else n - 1 in if ltb s 4 then 4 else s

unfoldable pub is_member : ℕ → List ℕ → Bool
is_member i idx = any (eqb i) idx

-- test_idx
abbrev pub test_of : ℕ → List ℕ → List ℕ
test_of s train = keep (λ i. not (is_member i train)) (range_from 0 s)

-- combos; the draw of `max` distinct positions is numpy's
unfoldable pub chosen : (ℕ → ℕ → List ℕ) → ℕ → List (List ℕ) → Option (List (List ℕ))
chosen choice max combos =
    if ltb max (length combos)
    then traverse (get_elem? combos) (choice (length combos) max)
    else some combos

abbrev pub share_verdict : ℕ → ℕ → String
share_verdict below n =
    if ltb (10 * below) (3 * n)
    then "robust"
    else if ltb (2 * below) n
    then "suspicious"
    else "overfit"

module _ {F : Type 0} (stats : Statistics F) where
  -- _sharpe_col
  abbrev pub sharpe_col : List F → F
  sharpe_col x =
      if stats.is_zero (stats.std x)
      then stats.zero_value
      else stats.divide (stats.mean x) (stats.std x)

  -- np.argmax: the first of the greatest
  unfoldable pub best_from : ℕ → F → ℕ → List F → ℕ
  best_from best x i [] = best
  best_from best x i (y ∷ ys) =
      if stats.le y x then best_from best x (suc i) ys else best_from i y (suc i) ys

  unfoldable pub argmax : List F → ℕ
  argmax [] = 0
  argmax (x ∷ xs) = best_from 0 x 1 xs

  unfoldable pub value_at : List F → ℕ → F
  value_at [] i = stats.zero_value
  value_at (x ∷ xs) zero = x
  value_at (x ∷ xs) (suc i) = value_at xs i

  -- np.vstack([partitions[i] for i in idx]), of one column; a partition has `size` rows
  unfoldable pub stacked : ℕ → List ℕ → List F → List F
  stacked size [] column = []
  stacked size (i ∷ idx) column = take size (drop (i * size) column) ++ stacked size idx column

  -- How many strategies are at most as good on the test rows as the best of the train rows.
  unfoldable pub rank : ℕ → ℕ → List (List F) → List ℕ → ℕ
  rank s size m train =
      let train_sr = map (λ c. sharpe_col (stacked size train c)) m in
      let test_sr = map (λ c. sharpe_col (stacked size (test_of s train) c)) m in
      length (keep (λ x. stats.le x (value_at test_sr (argmax train_sr))) test_sr)

  -- A logit is negative where the rank is less than half of the strategies.
  abbrev pub is_overfit : ℕ → ℕ → List (List F) → List ℕ → Bool
  is_overfit s size m train = ltb (2 * rank s size m train) (length m)

  abbrev pub evaluated : ℕ → ℕ → List (List F) → List (List ℕ) → Overfitting
  evaluated s size m combos =
      let below = length (keep (is_overfit s size m) combos) in
      record {
        overfit = below;
        n_combinations = length combos;
        verdict = share_verdict below (length combos);
      }

  -- probability_of_backtest_overfitting on a matrix of `t` rows; `none` where a position is not one
  unfoldable pub probability_of_backtest_overfitting :
      (ℕ → ℕ → List ℕ) → ℕ → List (List F) → ℕ → ℕ → Option Overfitting
  probability_of_backtest_overfitting choice t m n_partitions max_combinations =
      let s = n_parts n_partitions in
      if ltb (length m) 2
      then some insufficient
      else if ltb (t / s * s) (s * 2)
      then some insufficient
      else do
        combos ← chosen choice max_combinations (combinations (s / 2) (range_from 0 s))
        some (evaluated s (t / s) m combos)
