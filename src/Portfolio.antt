-- ===== src/Portfolio.antt =====
-- aqr/tools/core.py: validate_portfolio. probability_of_backtest_overfitting (aqr/validation/pbo.py) is
-- a function of the matrix, whose columns are the returns of the strategies.
pub mod Matrix
mod Examples
use pigeon_trade.Common.{
  ℕ, ◌-◌, min, String, List, [], ◌∷◌, map, drop, length, ltb, ◌==◌, if◌then◌else◌,
}
use pigeon_trade.Research.{ℤ, BacktestResult, Pbo}

abbrev kept : List ℤ → List (List ℤ) → List (List ℤ)
kept [] rest = rest
kept (x ∷ xs) rest = (x ∷ xs) ∷ rest

-- The daily returns of the results that have some.
unfoldable pub all_returns : List BacktestResult → List (List ℤ)
all_returns [] = []
all_returns (r ∷ rs) = kept r.daily_returns (all_returns rs)

-- min(len(dr) for dr in all_returns), and then with 500
unfoldable pub min_len : ℕ → List (List ℤ) → ℕ
min_len bound [] = bound
min_len bound (dr ∷ drs) = min (length dr) (min_len bound drs)

-- dr[-n:]
abbrev pub last_returns : ℕ → List ℤ → List ℤ
last_returns n dr = drop (length dr - n) dr

abbrev pub insufficient : Pbo
insufficient = record { pbo = 0; verdict = "insufficient" }

-- An empty verdict is an error.
abbrev pub judged : Pbo → Pbo
judged out = if out.verdict == "" then record { pbo = 0; verdict = "error" } else out

module _ (probability : List (List ℤ) → ℕ → Pbo) where
  -- validate_portfolio
  unfoldable pub validate_portfolio : List BacktestResult → Pbo
  unfolding all_returns min_len
  validate_portfolio results =
      let drs = all_returns results in
      let n = min_len 500 drs in
      if ltb (length drs) 4
      then insufficient
      else if ltb n 40
      then insufficient
      else judged (probability (map (last_returns n) drs) 8)
