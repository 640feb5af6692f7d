-- ===== src/Executor/Examples.antt =====
-- The theorems on the executor (aqr/pipeline/executor.py) at tools that answer.
use pigeon_trade.Common.{String, List, [], ◌∷◌}
use pigeon_trade.Common.Except.{ok, raise}
use pigeon_trade.Research.{Tools, PipelineResult}
use pigeon_trade.Research.Sample.{sample_tools, sample_research, tested, momentum}
use pigeon_trade.Executor.{Emission, run}
use pigeon_trade.Executor.Terminal.{EndsWell, run-EndsWell}

abbrev answering : Tools
answering = sample_tools (ok "The strategy holds.")

abbrev failing : Tools
failing = sample_tools (raise "RuntimeError")

run-EndsWell_example : EndsWell (run answering sample_research).0 (run answering sample_research).1
run-EndsWell_example = run-EndsWell answering sample_research

abbrev emission : String → List String → Emission
emission kind texts = record { kind = kind; texts = texts }

abbrev steps : List Emission
steps =
    emission "planning" []
    ∷ emission "data" ("SBER" ∷ [])
    ∷ emission "data" ("SBER" ∷ [])
    ∷ emission "generating" []
    ∷ emission "backtesting" ("fast" ∷ "significant" ∷ [])
    ∷ emission "validating" []
    ∷ emission "insight" ("one insight" ∷ [])
    ∷ emission "warning" []
    ∷ emission "narrating" []
    ∷ []

abbrev measured : PipelineResult
measured = record {
  n_hypotheses_tested = 1;
  n_survived_dsr = 1;
  portfolio_pbo = 200;
  portfolio_pbo_verdict = "robust";
  top = tested (momentum "fast" "SBER") ∷ [];
  narrative = "";
}
