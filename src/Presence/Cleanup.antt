-- ===== src/Presence/Cleanup.antt =====
-- _cleanup_loop: one round of it; and _get_locked_hyp_ids, which drops old locks as well.
use pigeon_trade.Common.{ℕ, ◌+◌, String, Bool, false, List, [], ◌∷◌, ◌≡◌, refl, ltb, ◌∙◌}
use pigeon_trade.Common.Dict.{keys, lookup, Distinct}
use pigeon_trade.Common.Sweep.{stale_keys, remove_all, swept, lookup-sweep}
use pigeon_trade.Presence.{
  SessionInfo, HypLock, Message, Tracker, Outcome, returns, blocks, Op, ◌>>◌, modify, with_lock,
  acquire, release, broadcast, presence, unlock_done, snapshot, lock_ttl, heartbeat_ttl,
}
use pigeon_trade.Presence.Locking.{Ensures}

-- now - last_seen > ttl
abbrev pub session_stale : ℕ → SessionInfo → Bool
session_stale now s = ltb (s.last_seen + heartbeat_ttl) now

abbrev pub lock_stale : ℕ → HypLock → Bool
lock_stale now l = ltb (l.locked_at + lock_ttl) now

-- The part under the lock.
sweep : ℕ → Tracker → Tracker
sweep now t = record t {
  sessions = remove_all (stale_keys (session_stale now) t.sessions) t.sessions;
  locks = remove_all (stale_keys (lock_stale now) t.locks) t.locks;
}

-- _get_locked_hyp_ids, which takes no lock
pub get_locked_hyp_ids : ℕ → Tracker → Tracker × List String
get_locked_hyp_ids now t =
    let kept = remove_all (stale_keys (lock_stale now) t.locks) t.locks in
    (record t { locks = kept }, keys kept)

announce_unlocks : List String → Op (Unit {0})
announce_unlocks [] t = returns tt t
announce_unlocks (hyp ∷ hyps) t = (do broadcast (unlock_done hyp); announce_unlocks hyps) t

announce : ℕ → List String → List String → Op (Unit {0})
announce now [] [] t = returns tt t
announce now (s ∷ sids) hyps t = (do broadcast (presence (snapshot now t)); announce_unlocks hyps) t
announce now [] (h ∷ hyps) t =
    (do broadcast (presence (snapshot now t)); announce_unlocks (h ∷ hyps)) t

-- One round of `_cleanup_loop` behind its `sleep`.
pub cleanup : ℕ → Op (Unit {0})
unfolding sweep announce announce_unlocks
cleanup now t =
    (do
      with_lock (modify (sweep now))
      announce now (stale_keys (session_stale now) t.sessions)
          (stale_keys (lock_stale now) t.locks))
      t

broadcast_lem :
    (msg : Message) (t : Tracker)
    → t.held ≡ false
    → Ensures
        (broadcast msg t)
        (λ r t'. (t'.held ≡ false) × (t'.sessions ≡ t.sessions) × (t'.locks ≡ t.locks))
unfolding broadcast
broadcast_lem msg t free = rw free (refl, refl, refl)

module _ {ℓ κ} {A : Type ℓ} {B : Type κ} where
  ensures-bind :
      (o : Outcome A) (f : A → Op B) (P : A → Tracker → Type 0) (Q : B → Tracker → Type 0)
      → Ensures o P
      → ((a : A) (t : Tracker) → P a t → Ensures (f a t) Q)
      → Ensures (elim o as (λ _. Outcome B) [ returns a t ↦ f a t | blocks t ↦ blocks t ]) Q
  ensures-bind (returns a t) f P Q h k = k a t h
  ensures-bind (blocks t) f P Q h k = absurd h

module _ {ℓ} {A : Type ℓ} where
  ensures-mono :
      (o : Outcome A) (P Q : A → Tracker → Type 0)
      → ((a : A) (t : Tracker) → P a t → Q a t)
      → Ensures o P
      → Ensures o Q
  ensures-mono (returns a t) P Q f h = f a t h
  ensures-mono (blocks t) P Q f h = h

-- The call leaves the lock free, and the sessions and the locks as they are.
abbrev Quiet : Tracker → Unit {0} → Tracker → Type 0
Quiet t r t' = (t'.held ≡ false) × (t'.sessions ≡ t.sessions) × (t'.locks ≡ t.locks)

announce_unlocks_lem :
    (hyps : List String) (t t₀ : Tracker)
    → Quiet t₀ tt t
    → Ensures (announce_unlocks hyps t) (Quiet t₀)
unfolding announce_unlocks
announce_unlocks_lem [] t t₀ q = q
announce_unlocks_lem (hyp ∷ hyps) t t₀ (f, s, l) =
    ensures-bind (broadcast (unlock_done hyp) t) (λ _. announce_unlocks hyps) _ (Quiet t₀)
      (broadcast_lem (unlock_done hyp) t f)
      (λ a t' (f', s', l'). announce_unlocks_lem hyps t' t₀ (f', s' ∙ s, l' ∙ l))

announce_lem :
    (now : ℕ) (sids hyps : List String) (t : Tracker)
    → t.held ≡ false
    → Ensures (announce now sids hyps t) (Quiet t)
unfolding announce
announce_lem now [] [] t f = (f, refl, refl)
announce_lem now (s ∷ sids) hyps t f =
    ensures-bind (broadcast (presence (snapshot now t)) t) (λ _. announce_unlocks hyps) _ (Quiet t)
      (broadcast_lem (presence (snapshot now t)) t f) (λ a t' q. announce_unlocks_lem hyps t' t q)
announce_lem now [] (h ∷ hyps) t f =
    ensures-bind (broadcast (presence (snapshot now t)) t) (λ _. announce_unlocks (h ∷ hyps)) _
      (Quiet t) (broadcast_lem (presence (snapshot now t)) t f)
      (λ a t' q. announce_unlocks_lem (h ∷ hyps) t' t q)

-- A round of the cleanup returns. It drops exactly the sessions that were silent for more than the
-- heartbeat's time to live and exactly the locks older than theirs.
pub cleanup_lem :
    (now : ℕ) (t : Tracker)
    → t.held ≡ false
    → Distinct t.sessions
    → Distinct t.locks
    → Ensures (cleanup now t) (λ r t'.
      (t'.held ≡ false)
      × ((k : String) → lookup k t'.sessions ≡ swept (session_stale now) (lookup k t.sessions))
      × ((k : String) → lookup k t'.locks ≡ swept (lock_stale now) (lookup k t.locks)))
unfolding cleanup sweep acquire release
cleanup_lem now t free ds dl =
    let free_swept : Tracker = sweep now (record t { held = false }) in
    rw free (
      ensures-mono
        (announce now (stale_keys (session_stale now) t.sessions)
          (stale_keys (lock_stale now) t.locks) free_swept)
        (Quiet free_swept) _
        (λ r t' (f, s, l). (
          f,
          λ k. rw s (lookup-sweep (session_stale now) k t.sessions ds),
          λ k. rw l (lookup-sweep (lock_stale now) k t.locks dl),
        ))
        (announce_lem now (stale_keys (session_stale now) t.sessions)
          (stale_keys (lock_stale now) t.locks) free_swept refl))
