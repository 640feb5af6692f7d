-- ===== src/Api/Capacity.antt =====
-- aqr/pipeline/api.py and aqr/background.py: the limit on background tasks at the start of a run.
use pigeon_trade.Common.{
  ℕ, ◌≤◌, String, Option, none, some, [], ◌∷◌, length, eq_refl, leb, if◌then◌else◌, ◌≡◌, refl, ap,
  ◌∙◌, arith, Bool-cases, inl, inr,
}
use pigeon_trade.Common.Dict.{lookup, lookup-insert}
use pigeon_trade.Common.Except.{Except, ok}
use pigeon_trade.Research.{ResearchPlan}
use pigeon_trade.Events.{register_run, history_of}
use pigeon_trade.Events.Retention.{owns-register_run}
use pigeon_trade.Registry.{Run, get_or_create_session, create_run, update_run_status}
use pigeon_trade.Api.Status.{run-update_run_status}
use pigeon_trade.Api.{
  World, Reply, run_started, status, http_error, start_run, opened_run, scheduled, schedule,
  get_run,
}

-- The status that the database has of a run.
abbrev pub stored_status : String → World → Option String
stored_status id w = elim (lookup id w.db.runs) [ none ↦ none | some r ↦ some r.status ]

history_of-register_run :
    (id session : String) (w : World) → history_of id (register_run id session w.bus) ≡ []
unfolding history_of register_run
history_of-register_run id session w =
    ground (arith, lookup-insert id id [] w.bus.history, eq_refl id)

get_run-opened_run :
    (now : ℕ) (goal session id : String) (w : World)
    → get_run id session (opened_run now goal session id w) ≡ status "unknown" []
unfolding get_run
get_run-opened_run now goal session id w =
    rw (owns-register_run id id session session w.bus)
      (rw (eq_refl id) (rw (eq_refl session) (rw (history_of-register_run id session w) refl)))

row-opened_run :
    (now : ℕ) (goal session id : String) (w : World)
    → (r : Run) × (lookup id (opened_run now goal session id w).db.runs ≡ some r)
      × (r.status ≡ "running")
unfolding create_run
row-opened_run now goal session id w =
    let r : Run = record {
      goal = goal;
      session_id = session;
      status = "running";
      summary_metrics = none;
      created_at = now;
    } in
    (
      r,
      lookup-insert id id r (get_or_create_session session w.db).runs ∙ rw (eq_refl id) refl,
      refl,
    )

stored_status-opened_run :
    (now : ℕ) (goal session id : String) (w : World)
    → stored_status id (opened_run now goal session id w) ≡ some "running"
stored_status-opened_run now goal session id w =
    let (r, e, s) = row-opened_run now goal session id w in rw (e, stored_status) (ap some s)

-- The row behind the refusal of the task.
abbrev refused : String → World → World
refused id w = record w { db = update_run_status id "error" none w.db }

stored_status-refused :
    (now : ℕ) (goal session id : String) (w : World)
    → stored_status id (refused id (opened_run now goal session id w)) ≡ some "error"
stored_status-refused now goal session id w =
    let (r, e, s) = row-opened_run now goal session id w in
    let (r', e', s') =
      run-update_run_status id "error" none (opened_run now goal session id w).db r e in
    rw (e', stored_status) (ap some s')

-- What a start leaves: the answer, the tasks, and the status in the database and of the route.
abbrev pub Started : ℕ → String → String → ResearchPlan → World → Except Reply × World → Type 0
Started max session id plan w (reply, w') =
    let full = leb max (length w.tasks) in
    (reply ≡ ok (if full then http_error 503 else run_started id plan))
    × (w'.tasks ≡ (if full then w.tasks else id ∷ w.tasks))
    × (length w.tasks ≤ max → length w'.tasks ≤ max)
    × (stored_status id w' ≡ some (if full then "error" else "running"))
    × (get_run id session w' ≡ status "unknown" [])

-- With a plan, a run starts exactly where there is room for its task, which never takes the tasks
-- over the limit. Where there is none the answer is 503 and the database has the run as an error,
-- but the bus still lists it for the session, with the status unknown, as it does a run that has
-- started.
pub start_run_lem :
    (max now : ℕ) (goal session id : String) (plan : ResearchPlan) (w : World)
    → Started max session id plan w (start_run max now goal session id (ok plan) w)
unfolding start_run get_run schedule
start_run_lem max now goal session id plan w =
    let shown = get_run-opened_run now goal session id w in
    elim (Bool-cases (leb max (length w.tasks))) [
      | inl e ↦
          rw (e, start_run, scheduled, schedule)
            (refl, refl, (λ h. h), stored_status-refused now goal session id w, shown)
      | inr e ↦
          rw (e, start_run, scheduled, schedule)
            (refl, refl, (λ h. ground arith), stored_status-opened_run now goal session id w, shown)
    ]
