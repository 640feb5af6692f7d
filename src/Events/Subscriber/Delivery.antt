-- ===== src/Events/Subscriber/Delivery.antt =====
-- What a subscriber of a run receives (publish, subscribe).
use pigeon_trade.Common.{
  ℕ, ◌<◌, String, false, List, [], ◌∷◌, ◌++◌, ◌==◌, ◌≡◌, refl, arith, eq_iff, if◌then◌else◌, length,
  append-nil,
}
use pigeon_trade.Common.Count.{count}
use pigeon_trade.Common.Dict.{Distinct}
use pigeon_trade.Events.{
  Event, Bus, get_list, expired_runs, prune, publish, put_nowait, put_all, max_queue,
}
use pigeon_trade.Events.Retention.{run_expired, fields-drop_runs, subscribers-prune}
use pigeon_trade.Events.Subscriber.{Subscriber}

put_all-absent :
    (ids : List ℕ) (e : Event) (queues : ℕ → List Event) (q : ℕ)
    → count q ids ≡ 0
    → put_all ids e queues q ≡ queues q
unfolding put_all
put_all-absent [] e queues q h = refl
put_all-absent (p ∷ ids) e queues q h =
    ground (arith, put_all-absent ids e (put_nowait queues p e) q)

put_all-once :
    (ids : List ℕ) (e : Event) (queues : ℕ → List Event) (q : ℕ)
    → count q ids ≡ 1
    → length (queues q) < max_queue
    → put_all ids e queues q ≡ queues q ++ e ∷ []
unfolding put_all
put_all-once [] e queues q h room = absurd (omega arith)
put_all-once (p ∷ ids) e queues q h room = ground (
  arith,
  put_all-once ids e (put_nowait queues p e) q,
  put_all-absent ids e (put_nowait queues p e) q,
)

-- The subscriber's queue is listed once under its run, and under no other.
abbrev pub IsAttached : Bus → Subscriber → Type 0
IsAttached b s =
    (run : String) → count s.queue (get_list run b.subscribers) ≡ (if run == s.run then 1 else 0)

abbrev pub own_part : Event → Subscriber → List Event
own_part e s = if e.run_id == s.run then e ∷ [] else []

queues-prune : (now : ℕ) (b : Bus) → (prune now b).queues ≡ b.queues
unfolding prune
queues-prune now b = (fields-drop_runs (expired_runs now b.retention b.finished_at) b).0

queues-publish :
    (now : ℕ) (e : Event) (b : Bus)
    → (publish now e b).queues ≡ put_all (get_list e.run_id (prune now b).subscribers) e b.queues
unfolding publish
queues-publish now e b = ground (arith, queues-prune now b)

subscribers-publish :
    (now : ℕ) (e : Event) (b : Bus) → (publish now e b).subscribers ≡ (prune now b).subscribers
unfolding publish
subscribers-publish now e b = ground arith

module _ (now : ℕ) (e : Event) (b : Bus) (s : Subscriber) where
  prune-IsAttached :
      Distinct b.finished_at
      → run_expired now s.run b ≡ false
      → IsAttached b s
      → IsAttached (prune now b) s
  prune-IsAttached d alive at run =
      ground (arith, subscribers-prune now run b d, at run, eq_iff run s.run)

  pub publish-IsAttached :
      Distinct b.finished_at
      → run_expired now s.run b ≡ false
      → IsAttached b s
      → IsAttached (publish now e b) s
  publish-IsAttached d alive at run =
      rw (subscribers-publish now e b) (prune-IsAttached d alive at run)

  -- An attached subscriber with room in its queue receives a published event exactly once if the
  -- event is of its run, and not at all otherwise.
  pub queue-publish :
      Distinct b.finished_at
      → run_expired now s.run b ≡ false
      → IsAttached b s
      → length (b.queues s.queue) < max_queue
      → (publish now e b).queues s.queue ≡ b.queues s.queue ++ own_part e s
  queue-publish d alive at room = rw (queues-publish now e b) (
      ground (
        arith,
        prune-IsAttached d alive at e.run_id,
        put_all-once (get_list e.run_id (prune now b).subscribers) e b.queues s.queue,
        put_all-absent (get_list e.run_id (prune now b).subscribers) e b.queues s.queue,
        append-nil (b.queues s.queue),
      ))
