-- ===== src/Api.antt =====
-- aqr/pipeline/api.py and aqr/background.py: the routes that start a run and show it, and the task
-- that runs the executor, publishes its events and stores the outcome. An event keeps its run and
-- its kind; its texts are the executor's. The database does not fail, and the defaults of a new
-- row's columns are `stamp`.
pub mod Status
pub mod Capacity
mod Examples
use pigeon_trade.Common.{
  ℕ, zero, suc, ◌+◌, String, Bool, true, false, Option, none, some, List, [], ◌∷◌, ◌++◌, length,
  keep, ◌==◌, eqb, leb, not, if◌then◌else◌,
}
use pigeon_trade.Common.Dict.{Dict, lookup}
use pigeon_trade.Common.Except.{Except, ok, raise}
use pigeon_trade.Research.{
  ℤ, Hypothesis, BacktestResult, Tools, ResearchPlan, PipelineResult, is_survivor,
}
use pigeon_trade.Events.{Event, Bus, register_run, owns, publish, history_of}
use pigeon_trade.Values.{end}
use pigeon_trade.Executor.{Emission, run}
use pigeon_trade.Registry.{
  Tables, Metrics, HypothesisRow, get_or_create_session, create_run, update_run_status,
  create_hypothesis,
}

-- The bus, the database, and the set of running background tasks, by run.
pub record World : Type 0 where
  pub bus : Bus
  pub db : Tables
  pub tasks : List String

-- background.schedule; `max` is AQR_MAX_BACKGROUND_TASKS
unfoldable pub schedule : ℕ → String → List String → Except (List String)
schedule max task tasks = if leb max (length tasks) then raise "RuntimeError" else ok (task ∷ tasks)

-- The callback of a task that is done.
abbrev pub discard : String → List String → List String
discard task tasks = keep (λ t. not (t == task)) tasks

-- What the routes answer, besides the errors that are the framework's.
pub data Reply : Type 0 where
  run_started : String → ResearchPlan → Reply
  status : String → List Event → Reply
  http_error : ℕ → Reply

-- The run is registered and stored as running, before its task is scheduled.
abbrev pub opened_run : ℕ → String → String → String → World → World
opened_run now goal session id w = record w {
  bus = register_run id session w.bus;
  db = create_run id now goal session "running" (get_or_create_session session w.db);
}

abbrev pub scheduled : String → ResearchPlan → World → Except (List String) → Reply × World
scheduled id plan w (ok tasks) = (run_started id plan, record w { tasks = tasks })
scheduled id plan w (raise e) =
    (http_error 503, record w { db = update_run_status id "error" none w.db })

-- start_run: `planned` is the planner's plan or exception, `id` the new uuid.
unfoldable pub start_run :
    ℕ → ℕ → String → String → String → Except ResearchPlan → World → Except Reply × World
unfolding schedule
start_run max now goal session id (raise e) w = (raise e, w)
start_run max now goal session id (ok plan) w =
    let w' = opened_run now goal session id w in
    let (reply, w'') = scheduled id plan w' (schedule max id w'.tasks) in (ok reply, w'')

abbrev pub last {ℓ} : {A : Type ℓ} → List A → Option A
last [] = none
last (x ∷ []) = some x
last (x ∷ y ∷ xs) = last (y ∷ xs)

-- The status that get_run reads off the last event.
abbrev pub status_of : Option Event → String
status_of none = "unknown"
status_of (some e) =
    if e.kind == "done" then "done" else if e.kind == "error" then "error" else "running"

-- get_run
unfoldable pub get_run : String → String → World → Reply
get_run id session w =
    if owns id session w.bus
    then status (status_of (last (history_of id w.bus))) (history_of id w.bus)
    else http_error 404

-- stream_run: the run whose subscription answers, or the error
unfoldable pub stream_run : String → String → World → Except String
stream_run id session w = if owns id session w.bus then ok id else raise "HTTPException"

abbrev pub event_of : ℕ → String → String → Event
event_of now id kind = record {
  run_id = id;
  kind = kind;
  stage = "executor";
  message = "";
  payload = end;
  ts = now;
}

-- The events of the executor, in order; the i-th is published at `clock i`.
unfoldable pub publish_all : (ℕ → ℕ) → String → ℕ → List Emission → Bus → Bus
publish_all clock id i [] b = b
publish_all clock id i (e ∷ es) b =
    publish_all clock id (suc i) es (publish (clock i) (event_of (clock i) id e.kind) b)

abbrev pub metrics_of : ℕ → PipelineResult → Metrics
metrics_of elapsed r = record {
  n_tested = r.n_hypotheses_tested;
  n_survived_dsr = r.n_survived_dsr;
  portfolio_pbo = r.portfolio_pbo;
  elapsed_seconds = elapsed;
}

-- The bus behind the executor's run: an exception is published once more.
abbrev pub reported : (ℕ → ℕ) → String → List Emission → Except PipelineResult → Bus → Bus
reported clock id es (ok r) b = publish_all clock id 0 es b
reported clock id es (raise e) b =
    let t = clock (length es) in publish t (event_of t id "error") (publish_all clock id 0 es b)

module _ (stamp : BacktestResult → String × ℕ) (embed : Hypothesis → Except (List ℤ)) where
  abbrev pub row_of : String → BacktestResult → List ℤ → HypothesisRow
  row_of id r v = record {
    id = (stamp r).0;
    run_id = id;
    family = r.hypothesis.family;
    ticker = r.hypothesis.ticker;
    config_json = r.hypothesis.params;
    dsr = some r.dsr;
    cpcv = some r.cpcv_mean_sharpe;
    sharpe = some r.sharpe;
    max_drawdown = some r.max_drawdown;
    is_valid = is_survivor r;
    embedding = some v;
    created_at = (stamp r).1;
  }

  abbrev stored : String → BacktestResult → Except (List ℤ) → Tables → Tables
  stored id r (raise e) db = db
  stored id r (ok v) db = create_hypothesis (row_of id r v) db

  -- The loop over the top results and their embeddings.
  unfoldable pub store_all : String → List BacktestResult → Tables → Tables
  store_all id [] db = db
  store_all id (r ∷ rs) db = store_all id rs (stored id r (embed r.hypothesis) db)

  -- The outcome in the database.
  abbrev pub persisted : ℕ → String → Except PipelineResult → Tables → Tables
  persisted elapsed id (raise e) db = update_run_status id "error" none db
  persisted elapsed id (ok r) db =
      store_all id r.top (update_run_status id "done" (some (metrics_of elapsed r)) db)

  -- _run_and_persist, and the callback behind it
  unfoldable pub run_and_persist : Tools → (ℕ → ℕ) → ℕ → String → ResearchPlan → World → World
  unfolding publish_all store_all
  run_and_persist tools clock elapsed id plan w =
      let (es, outcome) = run tools plan in
      record {
        bus = reported clock id es outcome w.bus;
        db = persisted elapsed id outcome w.db;
        tasks = discard id w.tasks;
      }
