-- ===== src/Events/Examples.antt =====
-- The theorems on the event bus (aqr/pipeline/events.py) at a bus with two runs, one of them over.
use pigeon_trade.Common.{ℕ, String, some, List, [], ◌∷◌, ◌++◌, ◌≡◌, refl, arith, eq_iff, eqb, keep}
use pigeon_trade.Common.Dict.{lookup, insert, remove, contains}
use pigeon_trade.Events.{
  Event, Bus, publish, put_all, prune, drop_runs, history_of, trim, expired_runs,
}
use pigeon_trade.Events.Retention.{history-publish}
use pigeon_trade.Events.Subscriber.{Subscriber, waiting, catching_up, subscribe, resume, receive}
use pigeon_trade.Events.Subscriber.Delivery.{IsAttached}
use pigeon_trade.Events.Subscriber.Trace.{
  Stream, Action, publishes, resumes, step, run, start, received, published, delivery, IsAllocated,
  returns,
}
use pigeon_trade.Events.Subscriber.EarlyReturn.{early_return}
use pigeon_trade.Values.{end}

abbrev event : String → String → Event
event run kind = record {
  run_id = run;
  kind = kind;
  stage = "";
  message = "";
  payload = end;
  ts = 7;
}

abbrev two_runs : ℕ → Bus
two_runs limit = record {
  history = ("a", event "a" "data" ∷ []) ∷ ("b", event "b" "done" ∷ []) ∷ [];
  subscribers = ("a", 0 ∷ []) ∷ ("b", []) ∷ [];
  done = ("a", 0) ∷ ("b", 1) ∷ [];
  owners = ("a", "alice") ∷ ("b", "bob") ∷ [];
  finished_at = ("b", 10) ∷ [];
  history_limit = limit;
  retention = 100;
  queues = λ _. [];
  next_queue = 1;
  flags = λ i. eqb i 1;
  next_flag = 2;
}

-- Two events of run "a" and one of run "b", with resumptions between them and behind.
abbrev actions : List Action
actions =
    publishes 20 (event "a" "info")
    ∷ publishes 21 (event "b" "info")
    ∷ resumes
    ∷ resumes
    ∷ publishes 22 (event "a" "done")
    ∷ resumes
    ∷ []

history-publish_example : history_of "b" (publish 110 (event "a" "info") (two_runs 500)) ≡ []
unfolding contains lookup
history-publish_example = history-publish 110 (event "a" "info") "b" (two_runs 500) (refl, tt)

abbrev listener : Subscriber
listener = record { run = "a"; queue = 0; done = some 0; phase = waiting }

listener-IsAttached : IsAttached (two_runs 500) listener
unfolding lookup
listener-IsAttached r = ground (arith, eq_iff "a" r, eq_iff r "a", eq_iff "b" r)

abbrev listening : Stream
listening = record { bus = two_runs 500; subscriber = listener; out = [] }

abbrev short_actions : List Action
short_actions = publishes 20 (event "a" "info") ∷ []

two_runs-IsAllocated : IsAllocated (two_runs 500)
unfolding lookup
two_runs-IsAllocated r = ground (arith, eq_iff "a" r, eq_iff "b" r)

delivery_example :
    ((run (start "a" (two_runs 500)) actions).out
      ≡ event "a" "data" ∷ event "a" "info" ∷ event "a" "done" ∷ [])
    × ((later : List Event) × ((run (start "a" (two_runs 500)) actions).out ++ later
          ≡ event "a" "data" ∷ event "a" "info" ∷ event "a" "done" ∷ []))
unfolding contains lookup published subscribe history_of step publish put_all prune expired_runs
    drop_runs returns resume insert remove trim keep received receive
delivery_example =
    delivery "a" (two_runs 500) actions two_runs-IsAllocated (refl, tt)
      (omega arith, refl, (omega arith, refl, (refl, (refl, (omega arith, refl, (refl, tt))))))

-- A subscriber of the run that is over, behind its snapshot, with an event in its queue.
abbrev late : Stream
late = record {
  bus = record (two_runs 500) { queues = λ _. event "b" "done" ∷ [] };
  subscriber = record { run = "b"; queue = 1; done = some 1; phase = catching_up [] };
  out = event "b" "data" ∷ [];
}

early_return_example : (run late (resumes ∷ short_actions)).out ≡ event "b" "data" ∷ []
early_return_example = early_return late (resumes ∷ short_actions) refl
