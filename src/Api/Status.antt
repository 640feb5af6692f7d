-- ===== src/Api/Status.antt =====
-- aqr/pipeline/api.py: the status of a run in the bus and in the database.
use pigeon_trade.Common.{
  ℕ, zero, suc, ◌-◌, ◌<◌, String, Option, none, some, List, [], ◌∷◌, ◌++◌, length, length-append,
  drop, eq_refl, ◌≡◌, refl, sym, ap, ◌∙◌, arith,
}
use pigeon_trade.Common.Dict.{lookup, Distinct, lookup-insert}
use pigeon_trade.Common.Except.{Except, ok, raise}
use pigeon_trade.Research.{ℤ, Hypothesis, BacktestResult, Tools, ResearchPlan, PipelineResult}
use pigeon_trade.Events.{Event, Bus, trim, publish, history_of}
use pigeon_trade.Events.Retention.{history-publish-trim, publish-Distinct}
use pigeon_trade.Executor.{Emission, run}
use pigeon_trade.Executor.Terminal.{EndsWell, done_event, run-EndsWell}
use pigeon_trade.Registry.{
  Tables, Run, Metrics, get_or_create_session, update_run_status, create_hypothesis,
}
use pigeon_trade.Api.{
  World, last, status_of, event_of, publish_all, store_all, stored, persisted, reported,
  run_and_persist, metrics_of,
}

last-append : (xs : List Event) (e : Event) → last (xs ++ e ∷ []) ≡ some e
last-append [] e = refl
last-append (x ∷ []) e = refl
last-append (x ∷ y ∷ xs) e = last-append (y ∷ xs) e

last-drop : (n : ℕ) (xs : List Event) → n < length xs → last (drop n xs) ≡ last xs
last-drop zero xs h = refl
last-drop (suc n) [] h = absurd (omega arith)
last-drop (suc n) (x ∷ []) h = absurd (omega arith)
last-drop (suc n) (x ∷ y ∷ xs) h = last-drop n (y ∷ xs) (omega arith)

last-trim : (limit : ℕ) (xs : List Event) (e : Event) → last (trim limit (xs ++ e ∷ [])) ≡ some e
unfolding trim
last-trim limit xs e = ground (
  arith,
  last-append xs e,
  last-drop (length (xs ++ e ∷ []) - limit) (xs ++ e ∷ []),
  length-append xs (e ∷ []),
)

-- The event that is published is the last of its run.
last-publish :
    (now : ℕ) (e : Event) (b : Bus)
    → Distinct b.finished_at
    → last (history_of e.run_id (publish now e b)) ≡ some e
last-publish now e b d =
    ap last (history-publish-trim now e e.run_id b d)
    ∙ rw (eq_refl e.run_id) (last-trim b.history_limit _ e)

publish_all-append :
    (clock : ℕ → ℕ) (id : String) (i : ℕ) (es : List Emission) (e : Emission) (b : Bus)
    → (t : ℕ) × (publish_all clock id i (es ++ e ∷ []) b
        ≡ publish t (event_of t id e.kind) (publish_all clock id i es b))
unfolding publish_all
publish_all-append clock id i [] e b = (clock i, refl)
publish_all-append clock id i (x ∷ es) e b = publish_all-append clock id (suc i) es e _

publish_all-Distinct :
    (clock : ℕ → ℕ) (id : String) (i : ℕ) (es : List Emission) (b : Bus)
    → Distinct b.finished_at
    → Distinct (publish_all clock id i es b).finished_at
unfolding publish_all
publish_all-Distinct clock id i [] b d = d
publish_all-Distinct clock id i (e ∷ es) b d =
    publish_all-Distinct clock id (suc i) es _
      (publish-Distinct (clock i) (event_of (clock i) id e.kind) b d)

-- What get_run reads off a bus.
abbrev pub bus_status : String → Bus → String
bus_status id b = status_of (last (history_of id b))

abbrev pub outcome_status : Except PipelineResult → String
outcome_status (ok r) = "done"
outcome_status (raise e) = "error"

reported_status :
    (clock : ℕ → ℕ) (id : String) (es : List Emission) (outcome : Except PipelineResult) (b : Bus)
    → Distinct b.finished_at
    → EndsWell es outcome
    → bus_status id (reported clock id es outcome b) ≡ outcome_status outcome
reported_status clock id es (ok r) b d (pre, e, q) =
    let (t, p) = publish_all-append clock id 0 pre done_event b in
    let before = publish_all clock id 0 pre b in
    ap (λ xs. bus_status id (publish_all clock id 0 xs b)) e
    ∙ ap (bus_status id) p
    ∙ ap status_of
        (last-publish t (event_of t id "done") before (publish_all-Distinct clock id 0 pre b d))
reported_status clock id es (raise x) b d h =
    let t = clock (length es) in
    ap status_of (
      last-publish t (event_of t id "error") (publish_all clock id 0 es b)
        (publish_all-Distinct clock id 0 es b d))

runs-get_or_create_session :
    (session : String) (db : Tables) → (get_or_create_session session db).runs ≡ db.runs
unfolding get_or_create_session
runs-get_or_create_session session db = ground arith

pub run-update_run_status :
    (id state : String) (m : Option Metrics) (db : Tables) (r : Run)
    → lookup id db.runs ≡ some r
    → (r' : Run) × (lookup id (update_run_status id state m db).runs ≡ some r')
      × (r'.status ≡ state)
unfolding update_run_status
run-update_run_status id state none db r e = (
  record r { status = state },
  rw e (lookup-insert id id (record r { status = state }) db.runs ∙ rw (eq_refl id) refl),
  refl,
)
run-update_run_status id state (some m) db r e = (
  record r { status = state; summary_metrics = some m },
  rw e (
      lookup-insert id id (record r { status = state; summary_metrics = some m }) db.runs
      ∙ rw (eq_refl id) refl),
  refl,
)

module _ (stamp : BacktestResult → String × ℕ) (embed : Hypothesis → Except (List ℤ)) where
  runs-stored :
      (id : String) (r : BacktestResult) (v : Except (List ℤ)) (db : Tables)
      → (stored stamp embed id r v db).runs ≡ db.runs
  unfolding create_hypothesis
  runs-stored id r (raise e) db = refl
  runs-stored id r (ok v) db = refl

  runs-store_all :
      (id : String) (rs : List BacktestResult) (db : Tables)
      → (store_all stamp embed id rs db).runs ≡ db.runs
  unfolding store_all
  runs-store_all id [] db = refl
  runs-store_all id (r ∷ rs) db = runs-store_all id rs _ ∙ runs-stored id r (embed r.hypothesis) db

  persisted_status :
      (elapsed : ℕ) (id : String) (outcome : Except PipelineResult) (db : Tables) (r : Run)
      → lookup id db.runs ≡ some r
      → (r' : Run) × (lookup id (persisted stamp embed elapsed id outcome db).runs ≡ some r')
        × (r'.status ≡ outcome_status outcome)
  persisted_status elapsed id (raise e) db r h = run-update_run_status id "error" none db r h
  persisted_status elapsed id (ok p) db r h =
      let (r', e, s) = run-update_run_status id "done" (some (metrics_of elapsed p)) db r h in
      (r', ap (lookup id) (runs-store_all id p.top _) ∙ e, s)

  -- Behind the task of a run that is stored, where the finished runs are listed once, the run has
  -- the same status in the bus as in the database: done where the executor returned, and error where
  -- it raised.
  pub run_and_persist_agrees :
      (tools : Tools) (clock : ℕ → ℕ) (elapsed : ℕ) (id : String) (plan : ResearchPlan) (w : World)
      (r : Run)
      → Distinct w.bus.finished_at
      → lookup id w.db.runs ≡ some r
      → let w' = run_and_persist stamp embed tools clock elapsed id plan w in
        (r' : Run) × (lookup id w'.db.runs ≡ some r')
        × (r'.status ≡ outcome_status (run tools plan).1)
        × (bus_status id w'.bus ≡ r'.status)
  unfolding run_and_persist
  run_and_persist_agrees tools clock elapsed id plan w r d h =
      let (es, outcome) = run tools plan in
      let (r', e, s) = persisted_status elapsed id outcome w.db r h in
      (r', e, s, reported_status clock id es outcome w.bus d (run-EndsWell tools plan) ∙ sym s)
