-- ===== src/Events/Subscriber/Trace.antt =====
-- A subscriber and the publishers of the bus, interleaved: the consumer resumes the generator at
-- times of its own, and each `publish` is one step, since it holds the lock.
use pigeon_trade.Common.{
  ℕ, ◌<◌, String, Bool, true, false, Option, none, some, List, [], ◌∷◌, ◌++◌, ◌==◌, ◌≡◌, refl,
  arith, eq_iff, if◌then◌else◌, eqb_refl, length, append_assoc, append-nil, take, drop, All, ap,
  ◌∙◌, sym,
}
use pigeon_trade.Common.Count.{count-fresh, count-append_self}
use pigeon_trade.Common.Dict.{Distinct, lookup-insert}
use pigeon_trade.Events.{Event, Bus, get_list, publish, max_queue, is_terminal, history_of}
use pigeon_trade.Events.Retention.{run_expired, publish-Distinct}
use pigeon_trade.Events.Subscriber.{
  Subscriber, Phase, catching_up, waiting, closing, closed, subscribe, resume_at, resume, receive,
  is_done,
}
use pigeon_trade.Events.Subscriber.Delivery.{
  IsAttached, own_part, publish-IsAttached, queue-publish,
}

pub record Stream : Type 0 where
  pub bus : Bus
  pub subscriber : Subscriber
  -- what the consumer has received, oldest first
  pub out : List Event

pub data Action : Type 0 where
  publishes : ℕ → Event → Action
  resumes : Action

abbrev option_list {ℓ} : {A : Type ℓ} → Option A → List A
option_list none = []
option_list (some a) = a ∷ []

after_resume : List Event → (Bus × Subscriber) × Option Event → Stream
after_resume out ((b, s), e) = record { bus = b; subscriber = s; out = out ++ option_list e }

unfoldable pub step : Stream → Action → Stream
unfolding after_resume
step t (publishes now e) = record t { bus = publish now e t.bus }
step t resumes = after_resume t.out (resume t.bus t.subscriber)

unfoldable pub run : Stream → List Action → Stream
run t [] = t
run t (a ∷ acts) = run (step t a) acts

abbrev rest_of : Phase → List Event
rest_of (catching_up rest) = rest
rest_of _ = []

-- What the consumer has, what is left of the snapshot, and what waits in the queue.
abbrev left_for : Stream → List Event
left_for t = rest_of t.subscriber.phase ++ t.bus.queues t.subscriber.queue

abbrev pub promised : Stream → List Event
promised t = t.out ++ left_for t

-- The generator returns when it is resumed here.
returns_at : Phase → Bool → Bool
returns_at (catching_up []) done = done
returns_at (catching_up (e ∷ rest)) done = false
returns_at waiting done = false
returns_at closing done = true
returns_at closed done = true

unfoldable pub returns : Stream → Bool
unfolding returns_at
returns t = returns_at t.subscriber.phase (is_done t.bus t.subscriber)

-- The queue has room at each publication, the run does not expire, and the generator has not
-- returned.
abbrev pub IsFair : Stream → List Action → Type 0
IsFair t [] = Unit
IsFair t (publishes now e ∷ acts) =
    (length (t.bus.queues t.subscriber.queue) < max_queue)
    × (run_expired now t.subscriber.run t.bus ≡ false)
    × IsFair (step t (publishes now e)) acts
IsFair t (resumes ∷ acts) = (returns t ≡ false) × IsFair (step t resumes) acts

-- The events of a run that the actions publish, in order.
unfoldable pub published : String → List Action → List Event
published r [] = []
published r (publishes now e ∷ acts) =
    let rest = published r acts in if e.run_id == r then e ∷ rest else rest
published r (resumes ∷ acts) = published r acts

-- What a first-in first-out queue hands over: an event that is published under the run goes behind
-- the waiting ones, and a resumption takes the first of them, if there is one.
unfoldable pub received : String → List Event → List Action → List Event
received r pending [] = []
received r pending (publishes now e ∷ acts) =
    received r (pending ++ (if e.run_id == r then e ∷ [] else [])) acts
received r pending (resumes ∷ acts) = take 1 pending ++ received r (drop 1 pending) acts

rest_of-if : (c : Bool) → rest_of (if c then closing else waiting) ≡ []
rest_of-if true = refl
rest_of-if false = refl

receive_keeps :
    (b : Bus) (s : Subscriber) (queue out : List Event)
    → b.queues s.queue ≡ queue
    → promised (after_resume out (receive b s queue)) ≡ out ++ queue
unfolding receive after_resume
receive_keeps b s [] out e = rw e (rw (append-nil out) (append-nil out))
receive_keeps b s (x ∷ queue) out e =
    rw (rest_of-if (is_terminal x)) (rw (eqb_refl s.queue) (append_assoc out (x ∷ []) queue))

resume_keeps :
    (p : Phase) (b : Bus) (s : Subscriber) (out : List Event)
    → returns_at p (is_done b s) ≡ false
    → promised (after_resume out (resume_at p b s)) ≡ out ++ (rest_of p ++ b.queues s.queue)
unfolding returns_at resume_at after_resume
resume_keeps (catching_up []) b s out h = rw h (receive_keeps b s (b.queues s.queue) out refl)
resume_keeps (catching_up (x ∷ rest)) b s out h =
    append_assoc out (x ∷ []) (rest ++ b.queues s.queue)
resume_keeps waiting b s out h = receive_keeps b s (b.queues s.queue) out refl
resume_keeps closing b s out h = cc
resume_keeps closed b s out h = cc

attached_receive :
    (b : Bus) (s : Subscriber) (queue : List Event)
    → ((receive b s queue).0.0.subscribers ≡ b.subscribers)
      × ((receive b s queue).0.0.finished_at ≡ b.finished_at)
      × ((receive b s queue).0.1.queue ≡ s.queue)
      × ((receive b s queue).0.1.run ≡ s.run)
unfolding receive
attached_receive b s [] = (refl, refl, refl, refl)
attached_receive b s (x ∷ queue) = (refl, refl, refl, refl)

-- What a resumption leaves alone while the generator goes on.
resume_frame :
    (p : Phase) (b : Bus) (s : Subscriber)
    → returns_at p (is_done b s) ≡ false
    → ((resume_at p b s).0.0.subscribers ≡ b.subscribers)
      × ((resume_at p b s).0.0.finished_at ≡ b.finished_at)
      × ((resume_at p b s).0.1.queue ≡ s.queue)
      × ((resume_at p b s).0.1.run ≡ s.run)
unfolding returns_at resume_at
resume_frame (catching_up []) b s h = rw h (attached_receive b s (b.queues s.queue))
resume_frame (catching_up (x ∷ rest)) b s h = (refl, refl, refl, refl)
resume_frame waiting b s h = attached_receive b s (b.queues s.queue)
resume_frame closing b s h = cc
resume_frame closed b s h = cc

-- The subscriber is listed as it should be, and the dict of finished runs is one.
abbrev pub IsSound : Stream → Type 0
IsSound t = IsAttached t.bus t.subscriber × Distinct t.bus.finished_at

step_publish :
    (t : Stream) (now : ℕ) (e : Event)
    → IsSound t
    → length (t.bus.queues t.subscriber.queue) < max_queue
    → run_expired now t.subscriber.run t.bus ≡ false
    → IsSound (step t (publishes now e))
      × (promised (step t (publishes now e)) ≡ promised t ++ own_part e t.subscriber)
unfolding step
step_publish t now e (at, d) room alive = (
  (publish-IsAttached now e t.bus t.subscriber d alive at, publish-Distinct now e t.bus d),
  rw (queue-publish now e t.bus t.subscriber d alive at room) (simp append_assoc),
)

step_resume :
    (t : Stream)
    → IsSound t
    → returns t ≡ false
    → IsSound (step t resumes)
      × (promised (step t resumes) ≡ promised t)
      × ((step t resumes).subscriber.run ≡ t.subscriber.run)
unfolding step returns resume
step_resume t (at, d) h =
    let f = resume_frame t.subscriber.phase t.bus t.subscriber h in
    (
      (λ r. rw (f.0, f.2, f.3) (at r), rw f.1 d),
      resume_keeps t.subscriber.phase t.bus t.subscriber t.out h,
      f.3,
    )

append_own :
    (c : Bool) (e : Event) (xs ys : List Event)
    → (xs ++ (if c then e ∷ [] else [])) ++ ys ≡ xs ++ (if c then e ∷ ys else ys)
append_own true e xs ys = append_assoc xs (e ∷ []) ys
append_own false e xs ys = ap (λ (zs : List Event). zs ++ ys) (append-nil xs)

-- Whatever the interleaving, while the queue has room and the generator has not returned, what the
-- consumer has received, with what is left for it, is what it was promised at the start with the
-- events published since under its run: each once, in their order.
pub promised-run :
    (t : Stream) (acts : List Action)
    → IsSound t
    → IsFair t acts
    → promised (run t acts) ≡ promised t ++ published t.subscriber.run acts
unfolding run step published
promised-run t [] ok fair = sym (append-nil (promised t))
promised-run t (publishes now e ∷ acts) ok fair =
    let (ok', e') = step_publish t now e ok fair.0 fair.1 in
    promised-run (step t (publishes now e)) acts ok' fair.2
    ∙ rw e' (append_own (e.run_id == t.subscriber.run) e (promised t) _)
promised-run t (resumes ∷ acts) ok fair =
    let (ok', e', r) = step_resume t ok fair.0 in
    promised-run (step t resumes) acts ok' fair.1 ∙ rw (e', r)

-- A resumption takes the first event that is left for the consumer, if there is one.
receive_takes :
    (b : Bus) (s : Subscriber) (queue out : List Event)
    → b.queues s.queue ≡ queue
    → ((after_resume out (receive b s queue)).out ≡ out ++ take 1 queue)
      × (left_for (after_resume out (receive b s queue)) ≡ drop 1 queue)
unfolding receive after_resume
receive_takes b s [] out e = (refl, e)
receive_takes b s (x ∷ queue) out e =
    (refl, rw (rest_of-if (is_terminal x)) (rw (eqb_refl s.queue) refl))

resume_takes :
    (p : Phase) (b : Bus) (s : Subscriber) (out : List Event)
    → returns_at p (is_done b s) ≡ false
    → let left = rest_of p ++ b.queues s.queue in
      ((after_resume out (resume_at p b s)).out ≡ out ++ take 1 left)
      × (left_for (after_resume out (resume_at p b s)) ≡ drop 1 left)
unfolding returns_at resume_at after_resume
resume_takes (catching_up []) b s out h = rw h (receive_takes b s (b.queues s.queue) out refl)
resume_takes (catching_up (x ∷ rest)) b s out h = (refl, refl)
resume_takes waiting b s out h = receive_takes b s (b.queues s.queue) out refl
resume_takes closing b s out h = cc
resume_takes closed b s out h = cc

step_takes :
    (t : Stream)
    → returns t ≡ false
    → ((step t resumes).out ≡ t.out ++ take 1 (left_for t))
      × (left_for (step t resumes) ≡ drop 1 (left_for t))
unfolding step returns resume
step_takes t h = resume_takes t.subscriber.phase t.bus t.subscriber t.out h

left_for-publish :
    (t : Stream) (now : ℕ) (e : Event)
    → IsSound t
    → length (t.bus.queues t.subscriber.queue) < max_queue
    → run_expired now t.subscriber.run t.bus ≡ false
    → left_for (step t (publishes now e)) ≡ left_for t ++ own_part e t.subscriber
unfolding step
left_for-publish t now e (at, d) room alive =
    rw (queue-publish now e t.bus t.subscriber d alive at room) (simp append_assoc)

out-run :
    (t : Stream) (acts : List Action)
    → IsSound t
    → IsFair t acts
    → (run t acts).out ≡ t.out ++ received t.subscriber.run (left_for t) acts
unfolding run step received
out-run t [] ok fair = sym (append-nil t.out)
out-run t (publishes now e ∷ acts) ok fair =
    out-run (step t (publishes now e)) acts (step_publish t now e ok fair.0 fair.1).0 fair.2
    ∙ rw (left_for-publish t now e ok fair.0 fair.1) refl
out-run t (resumes ∷ acts) ok fair =
    let (ok', e', r) = step_resume t ok fair.0 in
    let (taken, left) = step_takes t fair.0 in
    out-run (step t resumes) acts ok' fair.1
    ∙ rw (taken, left, r) (append_assoc t.out (take 1 (left_for t)) _)

-- Every listed queue was allocated.
abbrev pub IsAllocated : Bus → Type 0
IsAllocated b = (r : String) → All (λ q. q < b.next_queue) (get_list r b.subscribers)

abbrev pub start : String → Bus → Stream
start r b = record { bus = (subscribe r b).0; subscriber = (subscribe r b).1; out = [] }

start-IsAttached :
    (r : String) (b : Bus) → IsAllocated b → IsAttached (start r b).bus (start r b).subscriber
unfolding subscribe
start-IsAttached r b fresh q = ground (
  arith,
  lookup-insert r q (get_list r b.subscribers ++ b.next_queue ∷ []) b.subscribers,
  count-fresh b.next_queue (get_list q b.subscribers) (fresh q),
  count-append_self b.next_queue (get_list r b.subscribers),
  eq_iff r q,
  eq_iff q r,
)

start_promised : (r : String) (b : Bus) → promised (start r b) ≡ history_of r b
unfolding subscribe history_of
start_promised r b = rw (eqb_refl b.next_queue) (append-nil (get_list r b.history))

-- Where the queues that are listed were allocated, no run is listed twice as finished, and while a
-- new subscriber of a run follows publications and its own resumptions in any order: its queue has
-- room at each publication, the run does not expire, and it is not resumed where it returns, which
-- is behind a terminal event from its queue and, the snapshot behind it, once the run's done flag
-- is set. Then it receives, resumption by resumption, what a first-in first-out queue hands over
-- that starts with the run's history; and this is a beginning of the history with the run's events
-- that are published since behind it.
pub delivery :
    (r : String) (b : Bus) (acts : List Action)
    → IsAllocated b
    → Distinct b.finished_at
    → IsFair (start r b) acts
    → ((run (start r b) acts).out ≡ received r (history_of r b) acts)
      × ((later : List Event) × ((run (start r b) acts).out ++ later
            ≡ history_of r b ++ published r acts))
unfolding subscribe
delivery r b acts fresh d fair =
    let sound : IsSound (start r b) = (start-IsAttached r b fresh, d) in
    (
      out-run (start r b) acts sound fair ∙ ap (λ h. received r h acts) (start_promised r b),
      (
        left_for (run (start r b) acts),
        promised-run (start r b) acts sound fair ∙ rw (start_promised r b) refl,
      ),
    )
