-- ===== src/Presence/Subscription.antt =====
-- PresenceTracker.subscribe: the generator's parts up to its first wait, and its `finally`.
use pigeon_trade.Common.{
  ℕ, suc, ◌<◌, false, List, [], ◌∷◌, ◌++◌, ◌≡◌, refl, arith, if◌then◌else◌, eqb, eqb_refl, All, map,
  ap, ◌∙◌,
}
use pigeon_trade.Common.Count.{count, count-fresh, count-append_self}
use pigeon_trade.Common.Dict.{Dict}
use pigeon_trade.Presence.{
  HypLock, Message, presence, locked_ids, Tracker, returns, Op, with_lock, acquire, release,
  put_all, broadcast, snapshot,
}
use pigeon_trade.Presence.Locking.{Ensures}

abbrev with_queue : Op ℕ
with_queue t = returns t.next_queue (record t {
  subscribers = t.subscribers ++ t.next_queue ∷ [];
  queues = λ i. if eqb i t.next_queue then [] else t.queues i;
  next_queue = suc t.next_queue;
})

-- The part under the first lock: the name of the new queue.
pub subscribe : Op ℕ
subscribe = with_lock with_queue

abbrev ids_of : Dict HypLock → List Message
ids_of [] = []
ids_of ((hyp, l) ∷ items) = locked_ids (hyp ∷ map (λ e. e.0) items) ∷ []

-- What is yielded before the queue is looked at; the locked hypotheses only where there are some.
pub greeting : ℕ → Tracker → List Message
greeting now t = presence (snapshot now t) ∷ ids_of t.locks

-- list.remove: the first occurrence
remove_queue : ℕ → List ℕ → List ℕ
remove_queue q [] = []
remove_queue q (p ∷ ps) = let rest = remove_queue q ps in if eqb p q then ps else p ∷ rest

abbrev without : ℕ → Op (Unit {0})
without q t = returns tt (record t { subscribers = remove_queue q t.subscribers })

-- The `finally` block.
pub leave : ℕ → Op (Unit {0})
unfolding remove_queue
leave q = with_lock (without q)

put_all-absent :
    (ids : List ℕ) (msg : Message) (queues : ℕ → List Message) (q : ℕ)
    → count q ids ≡ 0
    → put_all ids msg queues q ≡ queues q
unfolding put_all
put_all-absent [] msg queues q h = refl
put_all-absent (p ∷ ids) msg queues q h = ground (arith, put_all-absent ids msg queues q)

put_all-once :
    (ids : List ℕ) (msg : Message) (queues : ℕ → List Message) (q : ℕ)
    → count q ids ≡ 1
    → put_all ids msg queues q ≡ queues q ++ msg ∷ []
unfolding put_all
put_all-once [] msg queues q h = absurd (omega arith)
put_all-once (p ∷ ids) msg queues q h =
    ground (arith, put_all-once ids msg queues q, put_all-absent ids msg queues q)

count-remove_queue : (q : ℕ) (ids : List ℕ) → count q ids ≡ 1 → count q (remove_queue q ids) ≡ 0
unfolding remove_queue
count-remove_queue q [] h = absurd (omega arith)
count-remove_queue q (p ∷ ids) h = ground (arith, count-remove_queue q ids)

-- Subscribing returns with a queue that is listed once, and a message that is broadcast then is put
-- into it exactly once, where every queue listed before was allocated and the lock is free.
pub subscribe-broadcast :
    (msg : Message) (t : Tracker)
    → t.held ≡ false
    → All (λ q. q < t.next_queue) t.subscribers
    → Ensures (subscribe t) (λ q t'.
      (count q t'.subscribers ≡ 1) × Ensures (broadcast msg t') (λ r t''. t''.queues q ≡ msg ∷ []))
unfolding subscribe broadcast acquire release
subscribe-broadcast msg t free fresh =
    let q : ℕ = t.next_queue in
    let once : count q (t.subscribers ++ q ∷ []) ≡ 1 =
      count-append_self q t.subscribers ∙ ap suc (count-fresh q t.subscribers fresh) in
    let queues : ℕ → List Message = λ i. if eqb i q then [] else t.queues i in
    rw free (
      once,
      put_all-once (t.subscribers ++ q ∷ []) msg queues q once
          ∙ ap (λ c. (if c then [] else t.queues q) ++ msg ∷ []) (eqb_refl q),
    )

-- A subscriber that leaves returns, and a message that is broadcast then is not put into its queue.
pub leave-broadcast :
    (msg : Message) (q : ℕ) (t : Tracker)
    → t.held ≡ false
    → count q t.subscribers ≡ 1
    → Ensures (leave q t) (λ r t'. Ensures (broadcast msg t') (λ s t''. t''.queues q ≡ t.queues q))
unfolding leave broadcast acquire release
leave-broadcast msg q t free once = rw free (
    put_all-absent (remove_queue q t.subscribers) msg t.queues q
      (count-remove_queue q t.subscribers once))
