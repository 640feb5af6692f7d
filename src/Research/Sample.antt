-- ===== src/Research/Sample.antt =====
-- Tools that answer, for the examples: one ticker, one hypothesis, and a narrative that may fail.
use pigeon_trade.Common.{String, none, some, [], ◌∷◌}
use pigeon_trade.Common.Except.{Except, ok, raise}
use pigeon_trade.Research.{pos, Hypothesis, BacktestResult, result, Plan, Tools, ResearchPlan}

abbrev pub sample_plan : Plan
sample_plan = record {
  tickers = some ("SBER" ∷ []);
  hypothesis_families = some ("momentum" ∷ []);
  n_hypotheses = some 2;
  start_date = none;
  end_date = none;
  timeframe = none;
  validation = none;
}

abbrev pub momentum : String → String → Hypothesis
momentum name ticker = record { name = name; family = "momentum"; ticker = ticker; params = [] }

abbrev pub tested : Hypothesis → BacktestResult
tested h = record {
  hypothesis = h;
  sharpe = pos 900;
  dsr = 970;
  dsr_verdict = "significant";
  cpcv_mean_sharpe = pos 700;
  max_drawdown = pos 50;
  n_trades = 12;
  daily_returns = [];
}

-- The second hypothesis has a ticker without prices.
abbrev pub sample_tools : Except String → Tools
sample_tools narrative = record {
  plan_research = λ goal. ok sample_plan;
  load_prices = λ tickers start finish interval. ok (("SBER", 100 ∷ 101 ∷ []) ∷ []);
  generate_hypotheses =
      λ tickers families n. ok (momentum "fast" "SBER" ∷ momentum "slow" "GAZP" ∷ []);
  backtest_one = λ h series n splits test_splits embargo. ok (result (tested h));
  validate_portfolio = λ rs. ok (record { pbo = 200; verdict = "robust" });
  extract_insights = λ top n survived pbo verdict. ok ("one insight" ∷ []);
  review_insights = λ goal top insights pbo verdict. raise "TimeoutError";
  narrate = λ goal tickers families n survived pbo verdict top. narrative;
}

abbrev pub sample_research : ResearchPlan
sample_research = record {
  goal = "momentum on SBER";
  plan_tickers = "SBER" ∷ [];
  families = "momentum" ∷ [];
  n = 2;
  start = "2023-01-01";
  finish = "2024-12-31";
  interval = "D1";
  config = none;
}
