-- ===== src/Api/Examples.antt =====
-- The theorems on aqr/pipeline/api.py at one run of one session.
use pigeon_trade.Common.{ℕ, ◌+◌, String, List, none, some, [], ◌∷◌, ◌≡◌, refl}
use pigeon_trade.Common.Dict.{lookup}
use pigeon_trade.Common.Except.{Except, ok}
use pigeon_trade.Research.{ℤ, pos, Hypothesis, BacktestResult, Tools}
use pigeon_trade.Research.Sample.{sample_tools, sample_research}
use pigeon_trade.Events.{init}
use pigeon_trade.Executor.{run}
use pigeon_trade.Registry.{Run}
use pigeon_trade.Api.{World, start_run, run_and_persist}
use pigeon_trade.Api.Status.{outcome_status, bus_status, run_and_persist_agrees}
use pigeon_trade.Api.Capacity.{Started, start_run_lem}

abbrev running : Run
running = record {
  goal = "momentum on SBER";
  session_id = "alice";
  status = "running";
  summary_metrics = none;
  created_at = 1;
}

abbrev one_run : World
one_run = record {
  bus = init 100 3600000;
  db = record {
    sessions = "alice" ∷ [];
    messages = [];
    runs = ("r1", running) ∷ [];
    hypotheses = [];
    settings = [];
  };
  tasks = "r1" ∷ [];
}

abbrev answering : Tools
answering = sample_tools (ok "The strategy holds.")

abbrev stamp : BacktestResult → String × ℕ
stamp r = ("h", 9)

abbrev embed : Hypothesis → Except (List ℤ)
embed h = ok (pos 1 ∷ [])

run_and_persist_agrees_example :
    let w' = run_and_persist stamp embed answering (λ i. 10 + i) 3 "r1" sample_research one_run in
    (r' : Run) × (lookup "r1" w'.db.runs ≡ some r')
    × (r'.status ≡ outcome_status (run answering sample_research).1)
    × (bus_status "r1" w'.bus ≡ r'.status)
unfolding lookup
run_and_persist_agrees_example =
    run_and_persist_agrees stamp embed answering (λ i. 10 + i) 3 "r1" sample_research one_run
      running tt refl

start_run_lem_example :
    Started 1 "bob" "r2" sample_research one_run
      (start_run 1 5 "momentum on SBER" "bob" "r2" (ok sample_research) one_run)
start_run_lem_example = start_run_lem 1 5 "momentum on SBER" "bob" "r2" sample_research one_run
