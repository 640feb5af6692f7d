-- ===== src/Validation/Bootstrap/Examples.antt =====
-- Samples of five rows in blocks of two, from a generator that counts.
use pigeon_trade.Common.{ℕ, suc, ◌+◌, ◌%◌, some, List, [], ◌∷◌, map, length, All, ◌≡◌, arith}
use pigeon_trade.Validation.Bootstrap.{bootstrap}
use pigeon_trade.Validation.Bootstrap.Ends.{IsSample, bootstrap_ends}

abbrev counted : ℕ → ℕ → ℕ × ℕ
counted size rng = (rng % size, suc rng)

abbrev total : List ℕ → ℕ
total [] = 0
total (x ∷ xs) = x + total xs

bootstrap_ends_example :
    (samples : List (List ℕ)) × (bootstrap counted total 5 2 3 0 ≡ some (map total samples))
    × (length samples ≡ 3)
    × All (IsSample counted 5) samples
bootstrap_ends_example = bootstrap_ends counted total 5 2 3 0 (omega arith) (omega arith)
