-- ===== src/Screener/Examples.antt =====
-- A grid of two fast and two slow windows, where the ratio is the distance of the windows.
use mathlib.Core.List.{Perm}
use pigeon_trade.Common.{
  ℕ, ◌+◌, ◌-◌, ◌≤◌, ◌<◌, min, Bool, false, some, List, [], ◌∷◌, ◌++◌, map, length, All, ◌≡◌,
}
use pigeon_trade.Common.Sort.{IsDescending}
use pigeon_trade.Screener.{
  RawStats, value, missing, VariantResult, pairs_of, variant, sharpe_rank, top_of,
}
use pigeon_trade.Screener.Best.{top_of-best}

abbrev no_nan : ℕ → Bool
no_nan x = false

abbrev by_distance : List ℕ → ℕ → ℕ → RawStats ℕ
by_distance close f s = record {
  sharpe_ratio = value (s - f);
  sortino_ratio = missing;
  drawdown = missing;
  total = missing;
  trades = some 3;
}

abbrev same : ℕ → ℕ
same x = x

abbrev fasts : List ℕ
fasts = 5 ∷ 10 ∷ []

abbrev slows : List ℕ
slows = 12 ∷ 50 ∷ []

abbrev top_two : List (VariantResult ℕ)
top_two = top_of 0 no_nan by_distance same [] 2 fasts slows

top_of-best_example :
    (rest : List (VariantResult ℕ)) × IsDescending (sharpe_rank 0 no_nan by_distance same) top_two
    × Perm (top_two ++ rest) (map (variant 0 no_nan by_distance same []) (pairs_of fasts slows))
    × All (λ t. All (λ r. same r.sharpe ≤ same t.sharpe) rest) top_two
    × (length top_two ≡ min 2 (length (pairs_of fasts slows)))
    × All (λ p. p.0 + 5 < p.1) (pairs_of fasts slows)
top_of-best_example = top_of-best 0 no_nan by_distance same [] 2 fasts slows
