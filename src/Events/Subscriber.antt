-- ===== src/Events/Subscriber.antt =====
-- EventBus.subscribe: an async generator, resumed by its consumer. Its state is where it stands.
pub mod Delivery
pub mod Trace
pub mod EarlyReturn
use pigeon_trade.Common.{
  ℕ, suc, String, Bool, true, false, Option, none, some, List, [], ◌∷◌, ◌++◌, if◌then◌else◌, eqb,
}
use pigeon_trade.Common.Dict.{Dict, lookup, insert}
use pigeon_trade.Events.{Event, Bus, get_list, update, is_terminal}

pub data Phase : Type 0 where
  -- in the loop over the snapshot, with what is left of it
  catching_up : List Event → Phase
  -- in `while True`
  waiting : Phase
  -- behind the `yield` of a terminal event
  closing : Phase
  -- behind the `finally`
  closed : Phase

pub record Subscriber : Type 0 where
  pub run : String
  pub queue : ℕ
  -- the flag that `self._done.get(run_id)` named at the start
  pub done : Option ℕ
  pub phase : Phase

-- The part under the first lock.
unfoldable pub subscribe : String → Bus → Bus × Subscriber
subscribe run b = (
  record b {
    subscribers = insert run (get_list run b.subscribers ++ b.next_queue ∷ []) b.subscribers;
    queues = update b.queues b.next_queue [];
    next_queue = suc b.next_queue;
  },
  record {
    run = run;
    queue = b.next_queue;
    done = lookup run b.done;
    phase = catching_up (get_list run b.history);
  },
)

-- list.remove: the first occurrence
pub remove_queue : ℕ → List ℕ → List ℕ
remove_queue q [] = []
remove_queue q (p ∷ ps) = if eqb p q then ps else p ∷ remove_queue q ps

-- The `finally` block. `subs` is the list in the dict, or a fresh empty one.
pub leave : Bus → Subscriber → Bus × Subscriber
leave b s = (
  elim (lookup s.run b.subscribers) [
    | none ↦ b
    | some ids ↦ record b { subscribers = insert s.run (remove_queue s.queue ids) b.subscribers }
  ],
  record s { phase = closed },
)

-- done and done.is_set()
abbrev pub is_done : Bus → Subscriber → Bool
is_done b s = elim s.done [ none ↦ false | some f ↦ b.flags f ]

-- One round of the loop: `q.get()` with a timeout of 30 seconds, which goes round again.
unfoldable pub receive : Bus → Subscriber → List Event → (Bus × Subscriber) × Option Event
receive b s [] = ((b, record s { phase = waiting }), none)
receive b s (e ∷ rest) = (
  (
    record b { queues = update b.queues s.queue rest },
    record s { phase = if is_terminal e then closing else waiting },
  ),
  some e,
)

resume_at : Phase → Bus → Subscriber → (Bus × Subscriber) × Option Event
resume_at (catching_up (e ∷ rest)) b s = ((b, record s { phase = catching_up rest }), some e)
resume_at (catching_up []) b s =
    if is_done b s then (leave b s, none) else receive b s (b.queues s.queue)
resume_at waiting b s = receive b s (b.queues s.queue)
resume_at closing b s = (leave b s, none)
resume_at closed b s = ((b, s), none)

-- The consumer asks for the next event: what is yielded, if anything is.
unfoldable pub resume : Bus → Subscriber → (Bus × Subscriber) × Option Event
unfolding resume_at
resume b s = resume_at s.phase b s
