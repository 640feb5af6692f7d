-- ===== src/Executor.antt =====
-- aqr/pipeline/executor.py: the executor of a plan and the events that it emits. An emission is its
-- kind and the texts that vary in it; the bus is `Events`. A computation is what it emitted with
-- the value that it returned or the exception that it raised.
pub mod Terminal
mod Examples
use pigeon_trade.Common.{
  ℕ, suc, String, Bool, true, false, ◌||◌, Option, none, some, List, [], ◌∷◌, ◌++◌, ◌==◌,
  if◌then◌else◌, length, map,
}
use pigeon_trade.Common.Dict.{Dict, lookup}
use pigeon_trade.Common.Except
use pigeon_trade.Common.Except.{Except, ok, raise}
use pigeon_trade.Research.{
  Hypothesis, BacktestResult, Backtest, error, result, ValidationConfig, Pbo, Tools, ResearchPlan,
  PipelineResult, is_survivor,
}
use pigeon_trade.Agent.{get_or, top_results, n_survivors}

pub record Emission : Type 0 where
  pub kind : String
  pub texts : List String

abbrev pub Run {ℓ} : Type ℓ → Type ℓ
Run A = List Emission × Except A

infixl 5 ◌>>=◌ ◌>>◌
abbrev pub bind_outcome {ℓ κ} :
    {A : Type ℓ} {B : Type κ} → List Emission → Except A → (A → Run B) → Run B
bind_outcome es (raise e) f = (es, raise e)
bind_outcome es (ok a) f = (es ++ (f a).0, (f a).1)

unfoldable pub ◌>>=◌ {ℓ κ} : {A : Type ℓ} {B : Type κ} → Run A → (A → Run B) → Run B
m >>= f = bind_outcome m.0 m.1 f

abbrev pub ◌>>◌ {ℓ κ} : {A : Type ℓ} {B : Type κ} → Run A → Run B → Run B
m >> n = m >>= λ _. n

unfoldable pub pure {ℓ} : {A : Type ℓ} → A → Run A
pure a = ([], ok a)

-- A tool's call emits nothing.
unfoldable pub call {ℓ} : {A : Type ℓ} → Except A → Run A
call r = ([], r)

unfoldable pub emit : String → List String → Run (Unit {0})
emit kind texts = (record { kind = kind; texts = texts } ∷ [], ok tt)

-- except Exception as e: handler; raise
abbrev pub on_error_outcome {ℓ} :
    {A : Type ℓ} → List Emission → Except A → (String → Run (Unit {0})) → Run A
on_error_outcome es (ok a) handler = (es, ok a)
on_error_outcome es (raise e) handler = (es ++ (handler e).0, raise e)

unfoldable pub on_error {ℓ} : {A : Type ℓ} → Run A → (String → Run (Unit {0})) → Run A
on_error m handler = on_error_outcome m.0 m.1 handler

unfoldable pub emit_all : String → List (List String) → Run (Unit {0})
emit_all kind [] = pure tt
emit_all kind (t ∷ ts) = do emit kind t; emit_all kind ts

module _ (tools : Tools) where
  -- _load_data_via_tool
  unfoldable pub load_data : ResearchPlan → Run (Dict (List ℕ))
  unfolding emit_all
  load_data plan = do
    emit_all "data" (map (λ t. t ∷ []) plan.plan_tickers)
    prices ← call (tools.load_prices plan.plan_tickers plan.start plan.finish plan.interval)
    emit_all "data" (map (λ e. e.0 ∷ []) prices)
    pure prices

  unfoldable pub backtest_call : ResearchPlan → Hypothesis → List ℕ → Except Backtest
  backtest_call plan h series =
      let v =
        get_or plan.config
          (record { cpcv_splits = none; cpcv_test_splits = none; embargo_pct = none }) in
      tools.backtest_one h series plan.n (get_or v.cpcv_splits 6) (get_or v.cpcv_test_splits 2)
        (get_or v.embargo_pct 10)

  -- The part of a round of the loop behind the tool's answer.
  abbrev record_result :
      Hypothesis → Backtest → Run (List BacktestResult) → Run (List BacktestResult)
  record_result h (error e) rest = rest
  record_result h (result r) rest = do
    emit "backtesting" (h.name ∷ r.dsr_verdict ∷ [])
    rs ← rest
    pure (r ∷ rs)

  unfoldable pub backtest_loop :
      ResearchPlan → Dict (List ℕ) → List Hypothesis → Run (List BacktestResult)
  unfolding backtest_call
  backtest_loop plan prices [] = pure []
  backtest_loop plan prices (h ∷ hs) = elim (lookup h.ticker prices) [
    | none ↦ backtest_loop plan prices hs
    | some series ↦ do
      b ← call (backtest_call plan h series)
      record_result h b (backtest_loop plan prices hs)
  ]

  -- The LLM's review, whose failure is a warning.
  unfoldable pub review_outcome : Except (List String) → Run (Unit {0})
  review_outcome (ok extra) = emit_all "insight" (map (λ t. t ∷ []) extra)
  review_outcome (raise e) = emit "warning" []

  -- The ranking, the observations and the event "narrating": the result without its narrative.
  unfoldable pub report : ResearchPlan → List BacktestResult → Pbo → Run PipelineResult
  unfolding top_results n_survivors
  report plan results pbo = do
    let top = top_results results
    let survived = n_survivors results
    insights ← call (tools.extract_insights top (length results) survived pbo.pbo pbo.verdict)
    emit_all "insight" (map (λ t. t ∷ []) insights)
    review_outcome (tools.review_insights plan.goal top insights pbo.pbo pbo.verdict)
    emit "narrating" []
    pure (record {
      n_hypotheses_tested = length results;
      n_survived_dsr = survived;
      portfolio_pbo = pbo.pbo;
      portfolio_pbo_verdict = pbo.verdict;
      top = top;
      narrative = "";
    })

  -- The steps of `run` up to the event "narrating".
  unfoldable pub measure : ResearchPlan → Run PipelineResult
  measure plan = do
    emit "planning" []
    prices ← load_data plan
    emit "generating" []
    specs ← call (tools.generate_hypotheses plan.plan_tickers plan.families plan.n)
    results ← backtest_loop plan prices specs
    emit "validating" []
    pbo ← call (tools.validate_portfolio results)
    report plan results pbo

  abbrev pub narrate_call : ResearchPlan → PipelineResult → Except String
  narrate_call plan r =
      tools.narrate plan.goal plan.plan_tickers plan.families r.n_hypotheses_tested r.n_survived_dsr
        r.portfolio_pbo r.portfolio_pbo_verdict r.top

  -- The narrative, the event of its failure, and the event "done".
  unfoldable pub conclude : ResearchPlan → PipelineResult → Run PipelineResult
  conclude plan r = do
    text ← on_error (call (narrate_call plan r)) (λ e. emit "error" (e ∷ []))
    emit "done" []
    pure (record r { narrative = text })

  unfoldable pub run : ResearchPlan → Run PipelineResult
  unfolding measure conclude on_error emit ◌>>=◌
  run plan = on_error (measure plan >>= conclude plan) (λ e. emit "error" (e ∷ []))
