-- ===== src/Research.antt =====
-- The values that the pipeline's steps hand on (aqr/types.py, the dicts of aqr/tools/core.py and
-- aqr/pipeline/planner.py), and the tools as the registry offers them. Ratios such as the deflated
-- Sharpe ratio are numbers of thousandths, as `round(x, 3)` leaves them.
pub mod Sample
use pigeon_trade.Common.{
  ℕ, zero, suc, String, Bool, true, false, ◌||◌, Option, none, some, List, ◌==◌, ltb,
}
use pigeon_trade.Common.Dict.{Dict}
use pigeon_trade.Common.Except.{Except}

-- `negsuc n` is -(n + 1).
pub data ℤ : Type 0 where
  pos : ℕ → ℤ
  negsuc : ℕ → ℤ

pub record Hypothesis : Type 0 where
  pub name : String
  pub family : String
  pub ticker : String
  pub params : Dict ℕ

-- A result dict of `backtest_one`, and BacktestResult.
pub record BacktestResult : Type 0 where
  pub hypothesis : Hypothesis
  pub sharpe : ℤ
  pub dsr : ℕ
  pub dsr_verdict : String
  pub cpcv_mean_sharpe : ℤ
  pub max_drawdown : ℤ
  pub n_trades : ℕ
  pub daily_returns : List ℤ

-- What `backtest_one` returns: a dict with the key "error", or a result.
pub data Backtest : Type 0 where
  error : String → Backtest
  result : BacktestResult → Backtest

pub record ValidationConfig : Type 0 where
  pub cpcv_splits : Option ℕ
  pub cpcv_test_splits : Option ℕ
  pub embargo_pct : Option ℕ

-- The dict of a ResearchPlan; a field is `none` where the key is missing.
pub record Plan : Type 0 where
  pub tickers : Option (List String)
  pub hypothesis_families : Option (List String)
  pub n_hypotheses : Option ℕ
  pub start_date : Option String
  pub end_date : Option String
  pub timeframe : Option String
  pub validation : Option ValidationConfig

pub record Pbo : Type 0 where
  pub pbo : ℕ
  pub verdict : String

-- dsr_verdict in ("significant", "borderline")
abbrev pub is_survivor : BacktestResult → Bool
is_survivor r = r.dsr_verdict == "significant" || r.dsr_verdict == "borderline"

-- The pipeline's tools, by their registered names. A tool may raise.
pub record Tools : Type 0 where
  pub plan_research : String → Except Plan
  -- tickers, start_date, end_date, timeframe
  pub load_prices : List String → String → String → String → Except (Dict (List ℕ))
  -- tickers, families, n
  pub generate_hypotheses : List String → List String → ℕ → Except (List Hypothesis)
  -- hypothesis, prices, n_hypotheses, cpcv_splits, cpcv_test_splits, embargo_pct
  pub backtest_one : Hypothesis → List ℕ → ℕ → ℕ → ℕ → ℕ → Except Backtest
  pub validate_portfolio : List BacktestResult → Except Pbo
  -- top_results, n_tested, n_survived, pbo, pbo_verdict
  pub extract_insights : List BacktestResult → ℕ → ℕ → ℕ → String → Except (List String)
  -- goal, top_results, deterministic_insights, pbo, pbo_verdict
  pub review_insights :
      String → List BacktestResult → List String → ℕ → String → Except (List String)
  -- goal, tickers, families, n_tested, n_survived, pbo, pbo_verdict, top_results
  pub narrate :
      String → List String → List String → ℕ → ℕ → ℕ → String → List BacktestResult → Except String

-- ResearchPlan (aqr/pipeline/planner.py), as the executor reads it.
pub record ResearchPlan : Type 0 where
  pub goal : String
  pub plan_tickers : List String
  pub families : List String
  pub n : ℕ
  pub start : String
  pub finish : String
  pub interval : String
  pub config : Option ValidationConfig

-- PipelineResult, less the plan and the time that it took.
pub record PipelineResult : Type 0 where
  pub n_hypotheses_tested : ℕ
  pub n_survived_dsr : ℕ
  pub portfolio_pbo : ℕ
  pub portfolio_pbo_verdict : String
  pub top : List BacktestResult
  pub narrative : String
