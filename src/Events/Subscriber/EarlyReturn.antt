-- ===== src/Events/Subscriber/EarlyReturn.antt =====
-- The check of the done flag between the snapshot and the queue (subscribe).
use pigeon_trade.Common.{
  ℕ, Bool, true, false, Option, none, some, List, [], ◌∷◌, ◌≡◌, refl, arith, append-nil, ◌∙◌,
}
use pigeon_trade.Events.{Event, Bus, publish, prune, expired_runs}
use pigeon_trade.Events.Retention.{fields-drop_runs}
use pigeon_trade.Events.Subscriber.{
  Subscriber, Phase, catching_up, waiting, closing, closed, resume, resume_at, leave, is_done,
}
use pigeon_trade.Events.Subscriber.Trace.{Stream, Action, publishes, resumes, step, run}

-- The generator has returned, or it returns at its next resumption, before it looks at its queue.
abbrev pub IsOver : Phase → Bool → Type 0
IsOver (catching_up []) done = done ≡ true
IsOver (catching_up (e ∷ rest)) done = ⊥
IsOver waiting done = ⊥
IsOver closing done = ⊥
IsOver closed done = Unit

flag-publish :
    (now : ℕ) (e : Event) (b : Bus) (f : ℕ) → b.flags f ≡ true → (publish now e b).flags f ≡ true
unfolding publish prune
flag-publish now e b f h =
    ground (arith, (fields-drop_runs (expired_runs now b.retention b.finished_at) b).1)

is_done-publish :
    (now : ℕ) (e : Event) (b : Bus) (o : Option ℕ)
    → elim o as (λ _. Bool) [ none ↦ false | some f ↦ b.flags f ] ≡ true
    → elim o as (λ _. Bool) [ none ↦ false | some f ↦ (publish now e b).flags f ] ≡ true
is_done-publish now e b none h = cc
is_done-publish now e b (some f) h = flag-publish now e b f h

publish-IsOver :
    (p : Phase) (now : ℕ) (e : Event) (b : Bus) (s : Subscriber)
    → IsOver p (is_done b s)
    → IsOver p (is_done (publish now e b) s)
publish-IsOver (catching_up []) now e b s h = is_done-publish now e b s.done h
publish-IsOver (catching_up (x ∷ rest)) now e b s h = h
publish-IsOver waiting now e b s h = h
publish-IsOver closing now e b s h = h
publish-IsOver closed now e b s h = h

resume-IsOver :
    (p : Phase) (b : Bus) (s : Subscriber)
    → s.phase ≡ p
    → IsOver p (is_done b s)
    → ((resume_at p b s).0.1.phase ≡ closed) × ((resume_at p b s).1 ≡ none)
unfolding resume_at leave
resume-IsOver (catching_up []) b s e h = rw h (refl, refl)
resume-IsOver (catching_up (x ∷ rest)) b s e h = absurd h
resume-IsOver waiting b s e h = absurd h
resume-IsOver closing b s e h = absurd h
resume-IsOver closed b s e h = (e, refl)

-- A subscriber that has caught up with its snapshot and is not resumed before the run's done flag
-- is set receives nothing more, whatever waits in its queue and whatever happens next: the events
-- published in between, the terminal one with them, are lost to it.
pub early_return :
    (t : Stream) (acts : List Action)
    → IsOver t.subscriber.phase (is_done t.bus t.subscriber)
    → (run t acts).out ≡ t.out
unfolding run step resume
early_return t [] h = refl
early_return t (publishes now e ∷ acts) h =
    early_return (step t (publishes now e)) acts
      (publish-IsOver t.subscriber.phase now e t.bus t.subscriber h)
early_return t (resumes ∷ acts) h =
    let (closes, silent) = resume-IsOver t.subscriber.phase t.bus t.subscriber refl h in
    early_return (step t resumes) acts (rw closes tt) ∙ rw silent (append-nil t.out)
