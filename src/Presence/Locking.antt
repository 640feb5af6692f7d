-- ===== src/Presence/Locking.antt =====
-- The locks as a client of the tracker sees them (lock, unlock, heartbeat).
use pigeon_trade.Common.{
  ℕ, String, Bool, true, false, ◌&&◌, Option, none, some, List, [], ◌∷◌, ◌==◌, ◌≡◌, ◌≢◌, refl,
  arith, eq_iff, if◌then◌else◌, Option-cases, inl, inr, ◌∙◌,
}
use pigeon_trade.Common.Dict.{Dict, lookup, lookup-insert, lookup-remove}
use pigeon_trade.Presence.{
  HypLock, Tracker, Outcome, returns, blocks, Reply, ok, locked_by, not_your_lock, lock, unlock,
  heartbeat, extend_lock,
}

-- The call returns, and what it returns has the property.
abbrev pub Ensures {ℓ} : {A : Type ℓ} → Outcome A → (A → Tracker → Type 0) → Type 0
Ensures (returns a t) Q = Q a t
Ensures (blocks t) Q = ⊥

-- The session that holds the lock of a hypothesis.
abbrev pub holder_in : String → Dict HypLock → Option String
holder_in hyp locks = elim (lookup hyp locks) [ none ↦ none | some l ↦ some l.session_id ]

abbrev pub holder : String → Tracker → Option String
holder hyp t = holder_in hyp t.locks

-- Whether a session may take a lock with this holder.
abbrev pub may_take : Option String → String → Bool
may_take none session = true
may_take (some other) session = other == session

abbrev pub lock_reply : Option String → String → Reply
lock_reply none session = ok
lock_reply (some other) session = if other == session then ok else locked_by other

-- `lock` returns. It grants the lock exactly when nobody else holds it, and names the holder
-- otherwise; afterwards the session holds a granted lock, and every other lock has the holder that
-- it had.
pub lock_lem :
    (now : ℕ) (hyp session name h : String) (t : Tracker)
    → t.held ≡ false
    → Ensures (lock now hyp session name t) (λ r t'.
      (t'.held ≡ false)
      × (r ≡ lock_reply (holder hyp t) session)
      × (holder h t'
          ≡ (if may_take (holder hyp t) session && hyp == h then some session else holder h t)))
unfolding lock
lock_lem now hyp session name h t free = rw free (
    ground (
      arith,
      lookup-insert hyp h (record { session_id = session; locked_at = now }) t.locks,
      eq_iff hyp h,
    ))

-- Whether a session has a lock with this holder.
abbrev pub has : Option String → String → Bool
has none session = false
has (some other) session = other == session

-- `unlock` returns. It succeeds and releases the lock exactly when the session holds it, refuses
-- otherwise, and leaves every other lock.
pub unlock_lem :
    (hyp session h : String) (t : Tracker)
    → t.held ≡ false
    → Ensures (unlock hyp session t) (λ r t'.
      (t'.held ≡ false)
      × (r ≡ (if has (holder hyp t) session then ok else not_your_lock))
      × (holder h t' ≡ (if has (holder hyp t) session && hyp == h then none else holder h t)))
unfolding unlock
unlock_lem hyp session h t free =
    rw free (ground (arith, lookup-remove hyp h t.locks, eq_iff hyp h))

extend_lock_holder :
    (now : ℕ) (session : String) (hyp : Option String) (locks : Dict HypLock) (h : String)
    → holder_in h (extend_lock now session hyp locks) ≡ holder_in h locks
unfolding extend_lock
extend_lock_holder now session none locks h = refl
extend_lock_holder now session (some hyp) locks h = elim (Option-cases (lookup hyp locks)) [
  | inl e ↦ ground arith
  | inr (l, e) ↦
      ground (arith, lookup-insert hyp h (record l { locked_at = now }) locks, eq_iff hyp h)
]

-- A heartbeat returns and changes the holder of no lock.
pub heartbeat-holder :
    (now : ℕ) (session name : String) (hyp : Option String) (h : String) (t : Tracker)
    → t.held ≡ false
    → Ensures
        (heartbeat now session name hyp t)
        (λ r t'. (t'.held ≡ false) × (holder h t' ≡ holder h t))
unfolding heartbeat
heartbeat-holder now session name hyp h t free =
    ground (arith, extend_lock_holder now session hyp t.locks h)

pub data Call : Type 0 where
  locks unlocks : String → String → Call
  heartbeats : String → Option String → Call

abbrev pub caller : Call → String
caller (locks hyp session) = session
caller (unlocks hyp session) = session
caller (heartbeats session hyp) = session

abbrev pub after_call {ℓ} : {A : Type ℓ} → Outcome A → Tracker
after_call (returns a t) = t
after_call (blocks t) = t

-- One request: the time and the name are the caller's.
pub step : Tracker → ℕ × String × Call → Tracker
step t (now, name, locks hyp session) = after_call (lock now hyp session name t)
step t (now, name, unlocks hyp session) = after_call (unlock hyp session t)
step t (now, name, heartbeats session hyp) = after_call (heartbeat now session name hyp t)

pub run : Tracker → List (ℕ × String × Call) → Tracker
run t [] = t
run t (c ∷ cs) = run (step t c) cs

abbrev pub NotBy : String → List (ℕ × String × Call) → Type 0
NotBy session [] = Unit
NotBy session ((now, name, c) ∷ cs) = (caller c ≢ session) × NotBy session cs

module _ {ℓ} {A : Type ℓ} where
  ensures-after :
      (o : Outcome A) (Q : A → Tracker → Type 0) (P : Tracker → Type 0)
      → ((a : A) (t : Tracker) → Q a t → P t)
      → Ensures o Q
      → P (after_call o)
  ensures-after (returns a t) Q P f h = f a t h
  ensures-after (blocks t) Q P f h = absurd h

abbrev pub IsHeldBy : String → String → Tracker → Type 0
IsHeldBy hyp session t = (t.held ≡ false) × (holder hyp t ≡ some session)

step_keeps :
    (hyp session : String) (c : ℕ × String × Call) (t : Tracker)
    → caller c.2 ≢ session
    → IsHeldBy hyp session t
    → IsHeldBy hyp session (step t c)
unfolding step
step_keeps hyp session (now, name, locks h who) t ne (free, held) =
    ensures-after (lock now h who name t)
      (λ r t'.
        (t'.held ≡ false)
        × (r ≡ lock_reply (holder h t) who)
        × (holder hyp t'
            ≡ (if may_take (holder h t) who && h == hyp then some who else holder hyp t)))
      (IsHeldBy hyp session)
      (λ r t' (f, _, e). (f, ground (arith, e, held, eq_iff h hyp, eq_iff session who)))
      (lock_lem now h who name hyp t free)
step_keeps hyp session (now, name, unlocks h who) t ne (free, held) =
    ensures-after (unlock h who t)
      (λ r t'.
        (t'.held ≡ false)
        × (r ≡ (if has (holder h t) who then ok else not_your_lock))
        × (holder hyp t' ≡ (if has (holder h t) who && h == hyp then none else holder hyp t)))
      (IsHeldBy hyp session)
      (λ r t' (f, _, e). (f, ground (arith, e, held, eq_iff h hyp, eq_iff session who)))
      (unlock_lem h who hyp t free)
step_keeps hyp session (now, name, heartbeats who h) t ne (free, held) =
    ensures-after (heartbeat now who name h t)
      (λ r t'. (t'.held ≡ false) × (holder hyp t' ≡ holder hyp t)) (IsHeldBy hyp session)
      (λ r t' (f, e). (f, e ∙ held)) (heartbeat-holder now who name h hyp t free)

-- A session keeps the lock of a hypothesis whatever lock, unlock and heartbeat requests the other
-- sessions make.
pub run_keeps :
    (hyp session : String) (cs : List (ℕ × String × Call)) (t : Tracker)
    → NotBy session cs
    → IsHeldBy hyp session t
    → IsHeldBy hyp session (run t cs)
unfolding run
run_keeps hyp session [] t ne h = h
run_keeps hyp session (c ∷ cs) t ne h =
    run_keeps hyp session cs (step t c) ne.1 (step_keeps hyp session c t ne.0 h)
