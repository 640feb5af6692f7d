-- ===== src/Llm/Reports.antt =====
-- aqr/pipeline/narrator.py and reviewer.py, with narrate and review_insights of aqr/tools/core.py. `text`
-- is str of a value, `letters` its texts of one letter, and `distinct` is list(set(...)), in an order
-- that Python leaves open.
pub mod Bounds
use pigeon_trade.Common.{
  ℕ, String, Bool, Option, none, some, List, [], ◌∷◌, map, length, keep, take,
}
use pigeon_trade.Common.Except.{Except, ok, raise, ◌>>=◌}
use pigeon_trade.Research.{Hypothesis, BacktestResult, is_survivor}
use pigeon_trade.Values.{PyValue, PyFields, list, nil}
use pigeon_trade.Credentials.{Settings}
use pigeon_trade.Llm.{Reported, Prompt, report, review, Choices, LlmCall, ask_model}
use pigeon_trade.Llm.Fence.{Letters, strip, strip_markdown_fence}
use pigeon_trade.Llm.Answer.{is_truthy, value_or, fields_of, items_of}

-- _dicts_to_backtest_results, of a dict without the series of its returns
abbrev pub without_returns : BacktestResult → BacktestResult
without_returns r = record {
  hypothesis = r.hypothesis;
  sharpe = r.sharpe;
  dsr = r.dsr;
  dsr_verdict = r.dsr_verdict;
  cpcv_mean_sharpe = r.cpcv_mean_sharpe;
  max_drawdown = r.max_drawdown;
  n_trades = r.n_trades;
  daily_returns = [];
}

-- A PipelineResult of the tools: the plan has the goal, and the dates and the timeframe of the class.
abbrev pub tool_result :
    String → List String → List String → ℕ → ℕ → ℕ → ℕ → String → List BacktestResult → Reported
tool_result goal tickers families n tested survived pbo verdict top = record {
  goal = goal;
  tickers = tickers;
  families = families;
  n_hypotheses = n;
  start_date = "2023-01-01";
  end_date = "2024-12-31";
  timeframe = "D1";
  n_tested = tested;
  n_survived = survived;
  pbo = pbo;
  pbo_verdict = verdict;
  top = map without_returns top;
}

-- What review_insights has the reviewer told.
abbrev pub told : (List String → List String) → String → List BacktestResult → ℕ → String → Reported
told distinct goal top pbo verdict =
    tool_result goal (distinct (map (λ b. b.hypothesis.ticker) top))
      (distinct (map (λ b. b.hypothesis.family) top)) (length top) (length top)
      (length (keep is_survivor top)) pbo verdict top

module _ (is_space : ℕ → Bool) (loads : Letters → Option PyValue) (text : PyValue → Letters)
    (letters : String → List PyValue) where
  -- str(o).strip()[:400]
  abbrev pub shortened : PyValue → Letters
  shortened o = take 400 (strip is_space (text o))

  -- [... for o in obs if o][:3]
  abbrev pub first_three : List PyValue → List Letters
  first_three os = take 3 (map shortened (keep is_truthy os))

  abbrev pub listed_in : PyFields → Except (List Letters)
  listed_in vs = do
    os ← items_of letters (value_or vs "observations" (list nil))
    ok (first_three os)

  unfoldable pub observations : PyValue → Except (List Letters)
  observations data_ = fields_of data_ >>= listed_in

  abbrev observations_loaded : Option PyValue → Except (List Letters)
  observations_loaded none = raise "JSONDecodeError"
  observations_loaded (some data_) = observations data_

  -- review, from the response on
  unfoldable pub observations_of : Choices → Except (List Letters)
  unfolding observations
  observations_of [] = raise "RuntimeError"
  observations_of (none ∷ choices) = raise "RuntimeError"
  observations_of (some content ∷ choices) =
      observations_loaded (loads (strip_markdown_fence is_space content))

  -- _llm_narrate, from the response on
  unfoldable pub narrative_of : Choices → Except Letters
  narrative_of [] = raise "RuntimeError"
  narrative_of (none ∷ choices) = raise "RuntimeError"
  narrative_of (some content ∷ choices) = ok (strip is_space content)

  module _ (litellm : String → Prompt → LlmCall Choices) (has : String → String → Bool)
      (session : Option Settings) where
    -- InsightReviewer(model).review; the number of bars of a result is that of its returns
    unfoldable pub review_result :
        Option String → Reported → List BacktestResult → List String → LlmCall (List Letters)
    unfolding ask_model observations_of
    review_result model r [] insights env = (env, raise "ValueError")
    review_result model r (t ∷ ts) insights env =
        ask_model litellm has session model
          (review r (map (λ b. length b.daily_returns) (t ∷ ts)) insights) observations_of env

    -- Narrator(model).narrate
    unfoldable pub narrate_result : Option String → Reported → LlmCall Letters
    unfolding ask_model narrative_of
    narrate_result model r env = ask_model litellm has session model (report r) narrative_of env

    -- review_insights
    unfoldable pub review_insights :
        (List String → List String)
        → String
        → List BacktestResult
        → List String
        → ℕ
        → String
        → LlmCall (List Letters)
    unfolding review_result
    review_insights distinct goal top insights pbo verdict env =
        let r = told distinct goal top pbo verdict in review_result none r r.top insights env

    -- narrate
    unfoldable pub narrate :
        String
        → List String
        → List String
        → ℕ
        → ℕ
        → ℕ
        → String
        → List BacktestResult
        → LlmCall Letters
    unfolding narrate_result
    narrate goal tickers families tested survived pbo verdict top env =
        narrate_result none
          (tool_result goal tickers families tested tested survived pbo verdict top) env
