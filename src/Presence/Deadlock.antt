-- ===== src/Presence/Deadlock.antt =====
-- PresenceTracker.remove, which broadcasts inside its own lock.
use pigeon_trade.Common.{
  ℕ, String, Bool, true, false, Option, [], ◌∷◌, ◌≡◌, refl, if◌then◌else◌, ◌==◌, inl, inr,
  Bool-cases,
}
use pigeon_trade.Common.Dict.{Dict, remove}
use pigeon_trade.Presence.{
  Tracker, HypLock, Outcome, returns, blocks, remove_session, release_all, broadcast, lock, unlock,
  heartbeat,
}

-- Whether the session holds a lock.
abbrev pub holds_any : String → Dict HypLock → Bool
holds_any session [] = false
holds_any session ((hyp, l) ∷ items) =
    if l.session_id == session then true else holds_any session items

-- The call waits for a lock, and the tracker's lock is held while it does.
abbrev pub IsStuck {ℓ} : {A : Type ℓ} → Outcome A → Type 0
IsStuck (returns a t) = ⊥
IsStuck (blocks t) = t.held ≡ true

release_all-IsStuck :
    (session : String) (items : Dict HypLock) (t : Tracker)
    → t.held ≡ true
    → holds_any session items ≡ true
    → IsStuck (release_all session items t)
unfolding release_all broadcast
release_all-IsStuck session [] t held h = cc
release_all-IsStuck session ((hyp, l) ∷ items) t held h =
    elim (Bool-cases (l.session_id == session)) [
      | inl e ↦ rw (e, held) refl
      | inr e ↦ rw e (release_all-IsStuck session items t held (rw e at h))
    ]

module _ {ℓ κ} {A : Type ℓ} {B : Type κ} where
  IsStuck-bind :
      (o : Outcome A) (f : A → Tracker → Outcome B)
      → IsStuck o
      → IsStuck (elim o as (λ _. Outcome B) [ returns a t ↦ f a t | blocks t ↦ blocks t ])
  IsStuck-bind (returns a t) f h = absurd h
  IsStuck-bind (blocks t) f h = h

-- `remove` of a session that holds a lock never returns: it waits for the tracker's lock while it
-- holds that lock itself.
pub remove_session-IsStuck :
    (now : ℕ) (session : String) (t : Tracker)
    → t.held ≡ false
    → holds_any session t.locks ≡ true
    → IsStuck (remove_session now session t)
unfolding remove_session release_all
remove_session-IsStuck now session t free h =
    let inside : Tracker = record t { held = true; sessions = remove session t.sessions } in
    let waits = release_all-IsStuck session t.locks inside refl h in
    rw free (IsStuck-bind _ _ (IsStuck-bind (release_all session t.locks inside) _ waits))

-- While the tracker's lock is held, every lock, unlock and heartbeat waits and changes nothing: so
-- after such a `remove` the tracker serves nobody.
pub held_blocks :
    (now : ℕ) (hyp session name : String) (seen : Option String) (t : Tracker)
    → t.held ≡ true
    → (lock now hyp session name t ≡ blocks t)
      × (unlock hyp session t ≡ blocks t)
      × (heartbeat now session name seen t ≡ blocks t)
unfolding lock unlock heartbeat
held_blocks now hyp session name seen t held = (rw held, rw held, rw held)
