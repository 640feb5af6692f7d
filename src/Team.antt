-- ===== src/Team.antt =====
-- aqr/agents: the editor, the reviewer and the writer, and run_team of orchestrator.py; the analyst is
-- Analyst. The screener and the browser are parameters.
pub mod Totals
mod Examples
use pigeon_trade.Common.{
  ℕ, zero, suc, ◌+◌, String, Bool, true, false, Option, none, some, List, [], ◌∷◌, ◌++◌, map, take,
  length, ◌==◌, ltb, eqb, if◌then◌else◌,
}
use pigeon_trade.Common.Dict.{Dict, lookup}
use pigeon_trade.Common.Except.{Except, ok, raise, ◌>>=◌}
use pigeon_trade.Research.{
  ℤ, pos, negsuc, Hypothesis, BacktestResult, Backtest, error, result, Plan, Pbo, Tools,
  is_survivor,
}
use pigeon_trade.Analyst.{AgentResult, done, failed, Analysis, analyze}
use pigeon_trade.Agent.{get_or, top_results, n_survivors}

-- What ReviewerAgent.validate returns, less the aggregates and the recommendations.
pub record Validation : Type 0 where
  pub pbo : ℕ
  pub pbo_verdict : String
  pub n_tested : ℕ
  pub n_survived : ℕ

-- What WriterAgent.write returns, less the summary.
pub record Report : Type 0 where
  pub narrative : String
  pub insights : List String
  pub top : List BacktestResult

module _ (tools : Tools) where
  abbrev pub planned : Except Plan → Except (AgentResult Plan)
  planned (raise e) = ok (failed "plan_research failed")
  planned (ok plan) = ok (elim plan.tickers [
    | none ↦ failed "empty tickers"
    | some ts ↦ elim ts [ [] ↦ failed "empty tickers" | t ∷ rest ↦ done plan ]
  ])

  -- EditorAgent.plan
  unfoldable pub edit : String → Except (AgentResult Plan)
  edit goal = planned (tools.plan_research goal)

  -- _compute_pbo, and what validate reads of it: the tool names its verdict otherwise.
  abbrev pbo_read : Except Pbo → ℕ × String
  pbo_read (ok p) = (p.pbo, "")
  pbo_read (raise e) = (0, "error")

  -- ReviewerAgent.validate
  unfoldable pub validate : List BacktestResult → Validation
  validate [] = record { pbo = 0; pbo_verdict = "no_data"; n_tested = 0; n_survived = 0 }
  validate (r ∷ rs) =
      let (pbo, verdict) = pbo_read (tools.validate_portfolio (r ∷ rs)) in
      record {
        pbo = pbo;
        pbo_verdict = verdict;
        n_tested = length (r ∷ rs);
        n_survived = n_survivors (r ∷ rs);
      }

  -- A tool's exception, raised again as a RuntimeError
  abbrev pub as_runtime_error {ℓ} : {A : Type ℓ} → Except A → Except A
  as_runtime_error (ok a) = ok a
  as_runtime_error (raise e) = raise "RuntimeError"

  -- The part of write for one result or more.
  abbrev pub written : String → Plan → List BacktestResult → Validation → Except Report
  written goal plan results v = do
    let top = top_results results
    insights ←
        as_runtime_error
          (tools.extract_insights top (length results) v.n_survived v.pbo v.pbo_verdict)
    narrative ← as_runtime_error (
        tools.narrate goal (get_or plan.tickers []) (get_or plan.hypothesis_families [])
          (length results) v.n_survived v.pbo v.pbo_verdict top)
    ok (record { narrative = narrative; insights = insights; top = top })

  -- WriterAgent.write
  unfoldable pub write :
      String → Plan → List BacktestResult → Validation → Except (AgentResult Report)
  write goal plan [] v = ok (failed "no backtest results available")
  write goal plan (r ∷ rs) v = written goal plan (r ∷ rs) v >>= λ report. ok (done report)

-- TeamResult, less the plan, the context and the times.
pub record TeamResult : Type 0 where
  pub is_ok : Bool
  pub results : List BacktestResult
  pub narrative : String
  pub top : List BacktestResult
  pub n_tested : ℕ
  pub n_survived : ℕ
  pub agent_errors : List String

abbrev pub stopped : List String → TeamResult
stopped errors = record {
  is_ok = false;
  results = [];
  narrative = "";
  top = [];
  n_tested = 0;
  n_survived = 0;
  agent_errors = errors;
}

-- The loop over the analysts' answers: the results of those that are ok, and the errors.
unfoldable pub gathered : List (Except (AgentResult Analysis)) → List BacktestResult × List String
gathered [] = ([], [])
gathered (raise e ∷ answers) = let (rs, errors) = gathered answers in (rs, e ∷ errors)
gathered (ok (failed e) ∷ answers) = let (rs, errors) = gathered answers in (rs, e ∷ errors)
gathered (ok (done a) ∷ answers) = let (rs, errors) = gathered answers in (a.results ++ rs, errors)

abbrev pub override {ℓ} : {A : Type ℓ} → Option A → Option A → Option A
override none field = field
override (some a) field = some a

abbrev pub reported : List BacktestResult → Validation → AgentResult Report → TeamResult
reported results v (failed e) = record {
  is_ok = false;
  results = results;
  narrative = "";
  top = [];
  n_tested = v.n_tested;
  n_survived = v.n_survived;
  agent_errors = [];
}
reported results v (done report) = record {
  is_ok = true;
  results = results;
  narrative = report.narrative;
  top = report.top;
  n_tested = v.n_tested;
  n_survived = v.n_survived;
  agent_errors = [];
}

module _ (tools : Tools) (screen : String → String → String → Except (List (ℕ × ℕ)))
    (code : ℤ → ℕ) where
  -- The reviewer and the writer, behind analysts that did not fail.
  abbrev pub concluded : String → Plan → List BacktestResult × List String → Except TeamResult
  concluded goal plan (results, e ∷ errors) = ok (stopped (e ∷ errors))
  concluded goal plan (results, []) =
      let v = validate tools results in
      (write tools goal plan results v >>= λ report. ok (reported results v report))

  -- The analysts' answers, one for each ticker.
  abbrev pub analyses : Plan → List (Except (AgentResult Analysis))
  analyses plan =
      map
        (λ ticker.
          analyze tools screen code ticker (get_or plan.hypothesis_families ("momentum" ∷ []))
            (get_or plan.start_date "2023-01-01") (get_or plan.end_date "2024-12-31")
            (get_or plan.timeframe "D1"))
        (get_or plan.tickers ("SBER" ∷ []))

  abbrev pub researched :
      String → Option (List String) → Option (List String) → AgentResult Plan → Except TeamResult
  researched goal tickers families (failed e) = ok (stopped [])
  researched goal tickers families (done plan) =
      let plan' = record plan {
        tickers = override tickers plan.tickers;
        hypothesis_families = override families plan.hypothesis_families;
      } in
      concluded goal plan' (gathered (analyses plan'))

  -- run_team, less the browser's context
  unfoldable pub run_team : String → Option (List String) → Option (List String) → Except TeamResult
  unfolding edit analyze validate write gathered
  run_team goal tickers families =
      edit tools goal >>= λ edited. researched goal tickers families edited
