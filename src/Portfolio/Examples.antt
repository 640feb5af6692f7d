-- ===== src/Portfolio/Examples.antt =====
-- Four strategies with forty returns each, and one without returns.
use pigeon_trade.Common.{ℕ, ◌≤◌, List, [], ◌∷◌, length, All, arith}
use pigeon_trade.Research.{ℤ, pos, BacktestResult, Pbo}
use pigeon_trade.Research.Sample.{momentum, tested}
use pigeon_trade.Portfolio.{all_returns}

abbrev constant : ℤ → List ℤ
constant x =
    let eight = λ (xs : List ℤ). x ∷ x ∷ x ∷ x ∷ x ∷ x ∷ x ∷ x ∷ xs in
    eight (eight (eight (eight (eight []))))

abbrev with_returns : List ℤ → BacktestResult
with_returns xs =
    let r = tested (momentum "fast" "SBER") in
    record {
      hypothesis = r.hypothesis;
      sharpe = r.sharpe;
      dsr = r.dsr;
      dsr_verdict = r.dsr_verdict;
      cpcv_mean_sharpe = r.cpcv_mean_sharpe;
      max_drawdown = r.max_drawdown;
      n_trades = r.n_trades;
      daily_returns = xs;
    }

abbrev strategies : List BacktestResult
strategies =
    with_returns (constant (pos 1))
    ∷ with_returns (constant (pos 2))
    ∷ with_returns []
    ∷ with_returns (constant (pos 3))
    ∷ with_returns (pos 5 ∷ constant (pos 4))
    ∷ []

abbrev counted : List (List ℤ) → ℕ → Pbo
counted m partitions = record { pbo = length m; verdict = "robust" }

four_strategies : 4 ≤ length (all_returns strategies)
unfolding all_returns
four_strategies = omega arith

enough_returns : All (λ dr. 40 ≤ length dr) (all_returns strategies)
unfolding all_returns
enough_returns = (omega arith, (omega arith, (omega arith, (omega arith, tt))))
