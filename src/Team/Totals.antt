-- ===== src/Team/Totals.antt =====
-- aqr/agents/orchestrator.py: what run_team returns.
use pigeon_trade.Common.{ℕ, ◌≤◌, ◌<◌, String, true, List, [], ◌∷◌, ◌++◌, length, ◌≡◌}
use pigeon_trade.Common.Except.{Except, ok, raise}
use pigeon_trade.Research.{ℤ, BacktestResult, Plan, Tools}
use pigeon_trade.Agent.{top_results, n_survivors}
use pigeon_trade.Analyst.{AgentResult, done, failed, Analysis}
use pigeon_trade.Team.{Report, TeamResult, analyses}

-- Every analyst is done, and these are their results, one behind the other.
abbrev pub Collects : List (Except (AgentResult Analysis)) → List BacktestResult → Type 0
Collects [] rs = rs ≡ []
Collects (raise e ∷ answers) rs = ⊥
Collects (ok (failed e) ∷ answers) rs = ⊥
Collects (ok (done a) ∷ answers) rs =
    (rest : List BacktestResult) × (rs ≡ a.results ++ rest) × Collects answers rest

-- The counts are those of the results, and the survivors are among those tested.
abbrev pub Counts : TeamResult → Type 0
Counts t =
    (t.n_tested ≡ length t.results)
    × (t.n_survived ≡ n_survivors t.results)
    × (t.n_survived ≤ t.n_tested)

module _ (tools : Tools) (screen : String → String → String → Except (List (ℕ × ℕ)))
    (code : ℤ → ℕ) where
  -- A team that is ok: every analyst of a plan is done, some hypothesis was tested, and the report
  -- shows the best results.
  abbrev pub Succeeds : TeamResult → Type 0
  Succeeds t =
      ((plan : Plan) × Collects (analyses tools screen code plan) t.results)
      × (0 < t.n_tested)
      × (t.top ≡ top_results t.results)
      × (t.agent_errors ≡ [])

  abbrev pub IsSettled : TeamResult → Type 0
  IsSettled t = Counts t × (t.is_ok ≡ true → Succeeds t)

  -- The writer is done, and shows the best results.
  abbrev IsWritten : List BacktestResult → AgentResult Report → Type 0
  IsWritten results (failed e) = ⊥
  IsWritten results (done report) = report.top ≡ top_results results
