-- ===== src/Validation/Pbo/Examples.antt =====
-- Two strategies of eight rows in four parts, on numbers whose standard deviation is one.
use pigeon_trade.Common.{
  ℕ, ◌+◌, ◌*◌, ◌/◌, ◌≤◌, some, List, [], ◌∷◌, ◌≡◌, arith, length, keep, ltb, leb, eqb, All, true,
  if◌then◌else◌,
}
use pigeon_trade.Validation.Combinations.{combinations, comb, range_from}
use pigeon_trade.Validation.Pbo.{
  Statistics, Overfitting, n_parts, probability_of_backtest_overfitting,
}
use pigeon_trade.Validation.Pbo.Best.{IsOrdered}
use pigeon_trade.Validation.Pbo.Splits.{
  IsHalved, IsApart, IsPick, at_most, ratios, probability_of_backtest_overfitting_lem,
}

abbrev total : List ℕ → ℕ
total [] = 0
total (x ∷ xs) = x + total xs

abbrev totals : Statistics ℕ
totals = record {
  zero_value = 0;
  is_zero = λ x. eqb x 0;
  le = leb;
  mean = total;
  std = λ xs. 1;
  divide = λ x y. x / y;
}

abbrev falling_and_flat : List (List ℕ)
falling_and_flat = (9 ∷ 9 ∷ 6 ∷ 6 ∷ 3 ∷ 3 ∷ 0 ∷ 0 ∷ []) ∷ (4 ∷ 4 ∷ 4 ∷ 4 ∷ 4 ∷ 4 ∷ 4 ∷ 4 ∷ []) ∷ []

abbrev first_ones : ℕ → ℕ → List ℕ
first_ones size n = range_from 0 n

few_combinations : comb (n_parts 4) (n_parts 4 / 2) ≤ 1000
unfolding comb
few_combinations = omega arith

leb_refl : (xs : List ℕ) → All (λ x. leb x x ≡ true) xs
leb_refl [] = tt
leb_refl (x ∷ xs) = (ground arith, leb_refl xs)

totals-IsOrdered : IsOrdered totals
totals-IsOrdered = record {
  comparable = λ x y h k l. ground arith;
  transitive = λ x y z h k. ground arith;
}

no_nan :
    (cs : List (List ℕ))
    → All (λ c. All (λ x. leb x x ≡ true) (ratios totals 2 c falling_and_flat)) cs
no_nan [] = tt
no_nan (c ∷ cs) = (leb_refl (ratios totals 2 c falling_and_flat), no_nan cs)

probability_of_backtest_overfitting_lem_example :
    (splits : List (List ℕ)) × (best : List ℕ → ℕ) × (mark : List ℕ → ℕ) × (out : Overfitting)
    × (probability_of_backtest_overfitting totals first_ones 8 falling_and_flat 4 1000 ≡ some out)
    × (splits ≡ combinations (n_parts 4 / 2) (range_from 0 (n_parts 4)))
    × All (IsHalved (n_parts 4)) splits
    × All (IsApart (n_parts 4)) splits
    × (length splits ≡ comb (n_parts 4) (n_parts 4 / 2))
    × All
        (λ c. IsPick totals (n_parts 4) (8 / n_parts 4) falling_and_flat c (best c) (mark c))
        splits
    × (out.n_combinations ≡ length splits)
    × (out.overfit
        ≡ length (
            keep
              (λ c.
                ltb (2 * at_most totals (n_parts 4) (8 / n_parts 4) falling_and_flat c (mark c)) 2)
              splits))
    × (out.verdict ≡ (
        if ltb (10 * out.overfit) (3 * out.n_combinations)
        then "robust"
        else if ltb (2 * out.overfit) out.n_combinations
        then "suspicious"
        else "overfit"))
probability_of_backtest_overfitting_lem_example =
    probability_of_backtest_overfitting_lem totals totals-IsOrdered first_ones 8 falling_and_flat 4
      1000 (omega arith) (omega arith) few_combinations
      (no_nan (combinations (n_parts 4 / 2) (range_from 0 (n_parts 4))))
