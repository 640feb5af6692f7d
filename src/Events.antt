-- ===== src/Events.antt =====
-- aqr/pipeline/events.py: the in-memory event bus. Queues and done flags are objects that the bus
-- and its subscribers share, so both live in a store and are named by numbers. Times are numbers of
-- milliseconds; `now` is what `time.time()` returns during the call, which holds the lock.
pub mod Subscriber
pub mod Retention
mod Examples
use pigeon_trade.Common.{
  ℕ, suc, ◌+◌, ◌-◌, String, Bool, true, false, ◌||◌, Option, none, some, List, [], ◌∷◌, ◌++◌, ◌==◌,
  if◌then◌else◌, ltb, leb, eqb, length, drop, map, keep,
}
use pigeon_trade.Common.Dict.{Dict, lookup, insert, remove}
use pigeon_trade.Values.{PyFields}

pub record Event : Type 0 where
  pub run_id : String
  pub kind : String
  pub stage : String
  pub message : String
  pub payload : PyFields
  pub ts : ℕ

pub record Bus : Type 0 where
  pub history : Dict (List Event)
  pub subscribers : Dict (List ℕ)
  pub done : Dict ℕ
  pub owners : Dict String
  pub finished_at : Dict ℕ
  pub history_limit : ℕ
  pub retention : ℕ
  -- the store: queue contents, oldest first, and done flags
  pub queues : ℕ → List Event
  pub next_queue : ℕ
  pub flags : ℕ → Bool
  pub next_flag : ℕ

abbrev pub init : ℕ → ℕ → Bus
init limit retention = record {
  history = [];
  subscribers = [];
  done = [];
  owners = [];
  finished_at = [];
  history_limit = limit;
  retention = retention;
  queues = λ _. [];
  next_queue = 0;
  flags = λ _. false;
  next_flag = 0;
}

-- asyncio.Queue(maxsize=1024)
abbrev pub max_queue : ℕ
max_queue = 1024

abbrev pub update {ℓ} : {A : Type ℓ} → (ℕ → A) → ℕ → A → ℕ → A
update f k v i = if eqb i k then v else f i

-- d.get(k, []), for a dict of lists
abbrev pub get_list {ℓ} : {A : Type ℓ} → String → Dict (List A) → List A
get_list k d = elim (lookup k d) [ none ↦ [] | some xs ↦ xs ]

unfoldable pub register_run : String → String → Bus → Bus
register_run run session b = record b {
  history = insert run [] b.history;
  subscribers = insert run [] b.subscribers;
  done = insert run b.next_flag b.done;
  owners = insert run session b.owners;
  flags = update b.flags b.next_flag false;
  next_flag = suc b.next_flag;
}

unfoldable pub owns : String → String → Bus → Bool
owns run session b = elim (lookup run b.owners) [ none ↦ false | some s ↦ s == session ]

-- now - finished_at >= retention
abbrev pub is_expired : ℕ → ℕ → ℕ → Bool
is_expired now retention finished = leb (finished + retention) now

pub expired_runs : ℕ → ℕ → Dict ℕ → List String
unfolding keep
expired_runs now retention finished =
    map (λ e. e.0) (keep (λ e. is_expired now retention e.1) finished)

abbrev drop_run : String → Bus → Bus
drop_run run b = record b {
  history = remove run b.history;
  subscribers = remove run b.subscribers;
  done = remove run b.done;
  owners = remove run b.owners;
  finished_at = remove run b.finished_at;
}

pub drop_runs : List String → Bus → Bus
drop_runs [] b = b
drop_runs (run ∷ runs) b = drop_runs runs (drop_run run b)

-- _prune_finished_locked
pub prune : ℕ → Bus → Bus
prune now b = drop_runs (expired_runs now b.retention b.finished_at) b

-- `del history[:-limit]` when `len(history) > limit`. The slice `[:-0]` is empty.
unfoldable pub trim : ℕ → List Event → List Event
trim limit events =
    if ltb limit (length events)
    then (if eqb limit 0 then events else drop (length events - limit) events)
    else events

-- q.put_nowait(event), where QueueFull is logged and the event dropped
abbrev put_nowait : (ℕ → List Event) → ℕ → Event → ℕ → List Event
put_nowait queues q e =
    if ltb (length (queues q)) max_queue then update queues q (queues q ++ e ∷ []) else queues

-- The fan-out to the subscribers' queues.
pub put_all : List ℕ → Event → (ℕ → List Event) → ℕ → List Event
put_all [] e queues = queues
put_all (q ∷ qs) e queues = put_all qs e (put_nowait queues q e)

abbrev pub is_terminal : Event → Bool
is_terminal e = e.kind == "done" || e.kind == "error"

-- `done.set()`, where the run has a flag, and the time of the end
abbrev pub finish : ℕ → String → Bus → Bus
finish now run b = record b {
  flags = elim (lookup run b.done) [ none ↦ b.flags | some f ↦ update b.flags f true ];
  finished_at = insert run now b.finished_at;
}

abbrev pub append_event : Event → Bus → Bus
append_event e b = record b {
  history =
      insert e.run_id (trim b.history_limit (get_list e.run_id b.history ++ e ∷ [])) b.history;
  queues = put_all (get_list e.run_id b.subscribers) e b.queues;
}

pub publish : ℕ → Event → Bus → Bus
publish now e b =
    let b' = append_event e (prune now b) in if is_terminal e then finish now e.run_id b' else b'

-- history(run_id): a copy of the list
unfoldable pub history_of : String → Bus → List Event
history_of run b = get_list run b.history
