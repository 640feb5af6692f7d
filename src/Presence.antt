-- ===== src/Presence.antt =====
-- aqr/explore/presence.py: who is online, and the pessimistic locks on hypotheses. Times are
-- milliseconds of `time.monotonic()`; one call reads the clock once. The subscribers' queues live
-- in a store and are named by numbers. An `asyncio.Lock` is not re-entrant: a call that acquires it
-- while it is held waits, and `blocks` is that wait.
pub mod Locking
pub mod Cleanup
pub mod Deadlock
pub mod Subscription
mod Examples
use pigeon_trade.Common.{
  ℕ, suc, ◌+◌, String, Bool, true, false, ◌&&◌, not, Option, none, some, List, [], ◌∷◌, ◌++◌, ◌==◌,
  if◌then◌else◌, ltb, leb, eqb, map, keep,
}
use pigeon_trade.Common.Dict.{Dict, lookup, insert, remove, contains}
use pigeon_trade.Common.Sweep.{stale_keys, remove_all}

pub record SessionInfo : Type 0 where
  pub name : String
  pub hyp_id : Option String
  pub last_seen : ℕ

pub record HypLock : Type 0 where
  pub session_id : String
  pub locked_at : ℕ

pub data Message : Type 0 where
  presence : List (String × Option String) → Message
  lock_taken : String → String → String → Message
  unlock_done : String → Message
  locked_ids : List String → Message

pub record Tracker : Type 0 where
  pub held : Bool
  pub sessions : Dict SessionInfo
  pub locks : Dict HypLock
  pub subscribers : List ℕ
  pub queues : ℕ → List Message
  pub next_queue : ℕ

abbrev pub lock_ttl : ℕ
lock_ttl = 300000

abbrev pub heartbeat_ttl : ℕ
heartbeat_ttl = 60000

abbrev pub init : Tracker
init = record {
  held = false;
  sessions = [];
  locks = [];
  subscribers = [];
  queues = λ _. [];
  next_queue = 0;
}

pub data Outcome {ℓ} (A : Type ℓ) : Type ℓ where
  returns : A → Tracker → Outcome A
  -- waits for the lock, for ever if nobody else holds it
  blocks : Tracker → Outcome A

abbrev pub Op {ℓ} : Type ℓ → Type ℓ
Op A = Tracker → Outcome A

infixl 5 ◌>>=◌ ◌>>◌
abbrev pub ◌>>=◌ {ℓ κ} : {A : Type ℓ} {B : Type κ} → Op A → (A → Op B) → Op B
◌>>=◌ m f t = elim (m t) [ returns a t' ↦ f a t' | blocks t' ↦ blocks t' ]

abbrev pub ◌>>◌ {ℓ κ} : {A : Type ℓ} {B : Type κ} → Op A → Op B → Op B
m >> n = m >>= λ _. n

abbrev pub pure {ℓ} : {A : Type ℓ} → A → Op A
pure a t = returns a t

abbrev pub modify : (Tracker → Tracker) → Op (Unit {0})
modify f t = returns tt (f t)

unfoldable pub acquire : Op (Unit {0})
acquire t = if t.held then blocks t else returns tt (record t { held = true })

unfoldable pub release : Op (Unit {0})
release t = returns tt (record t { held = false })

-- async with self._lock
abbrev pub with_lock {ℓ} : {A : Type ℓ} → Op A → Op A
with_lock m = do acquire; a ← m; release; pure a

-- q.put_nowait(msg) for every queue; the queues have no bound
unfoldable pub put_all : List ℕ → Message → (ℕ → List Message) → ℕ → List Message
put_all [] msg queues i = queues i
put_all (q ∷ qs) msg queues i =
    let rest = put_all qs msg queues i in if eqb i q then rest ++ msg ∷ [] else rest

-- _broadcast and _broadcast_locked have the same body: every subscriber is sent the message.
unfoldable pub broadcast : Message → Op (Unit {0})
unfolding acquire release put_all
broadcast msg = do
  qs ← with_lock (λ t. returns t.subscribers t)
  modify (λ t. record t { queues = put_all qs msg t.queues })

-- _snapshot
unfoldable pub snapshot : ℕ → Tracker → List (String × Option String)
snapshot now t =
    map (λ e. (e.1.name, e.1.hyp_id))
      (keep (λ e. ltb now (e.1.last_seen + heartbeat_ttl)) t.sessions)

abbrev send_presence : ℕ → Op (Unit {0})
send_presence now t = broadcast (presence (snapshot now t)) t

extend_lock : ℕ → String → Option String → Dict HypLock → Dict HypLock
extend_lock now session none locks = locks
extend_lock now session (some hyp) locks = elim (lookup hyp locks) [
  | none ↦ locks
  | some l ↦
      if not (hyp == "") && l.session_id == session
      then insert hyp (record l { locked_at = now }) locks
      else locks
]

unfoldable pub heartbeat : ℕ → String → String → Option String → Op (Unit {0})
unfolding broadcast snapshot extend_lock
heartbeat now session name hyp = do
  with_lock (
      modify λ t. record t {
        sessions =
            insert session (record { name = name; hyp_id = hyp; last_seen = now }) t.sessions;
        locks = extend_lock now session hyp t.locks;
      })
  send_presence now

-- The loop over `list(self._locks.items())` in `remove`, inside the lock.
release_all : String → Dict HypLock → Op (Unit {0})
release_all session [] = pure tt
release_all session ((hyp, l) ∷ items) = do
  if l.session_id == session
      then (do modify (λ t. record t { locks = remove hyp t.locks }); broadcast (unlock_done hyp))
      else pure tt
  release_all session items

unfoldable pub remove_session : ℕ → String → Op (Unit {0})
unfolding release_all broadcast snapshot
remove_session now session = do
  with_lock (do
    modify (λ t. record t { sessions = remove session t.sessions })
    λ t. release_all session t.locks t)
  send_presence now

pub data Reply : Type 0 where
  ok : Reply
  locked_by : String → Reply
  not_your_lock : Reply

abbrev setdefault : String → SessionInfo → Dict SessionInfo → Dict SessionInfo
setdefault k v d = if contains k d then d else insert k v d

abbrev take_lock : ℕ → String → String → String → Tracker → Tracker
take_lock now hyp session name t = record t {
  locks = insert hyp (record { session_id = session; locked_at = now }) t.locks;
  sessions =
      setdefault session (record { name = name; hyp_id = some hyp; last_seen = now }) t.sessions;
}

-- The part of `lock` under the lock: `some` owner where it returns early.
unfoldable pub try_lock : ℕ → String → String → String → Op (Option String)
try_lock now hyp session name t = elim (lookup hyp t.locks) [
  | none ↦ returns none (take_lock now hyp session name t)
  | some l ↦
      if l.session_id == session
      then returns none (take_lock now hyp session name t)
      else returns (some l.session_id) t
]

-- The early return, or the announcement behind the lock.
abbrev answer_lock : Option String → String → String → String → Op Reply
answer_lock none hyp session name t = (do broadcast (lock_taken hyp session name); pure ok) t
answer_lock (some other) hyp session name t = returns (locked_by other) t

unfoldable pub lock : ℕ → String → String → String → Op Reply
unfolding broadcast try_lock
lock now hyp session name = do
  owner ← with_lock (try_lock now hyp session name)
  answer_lock owner hyp session name

unfoldable pub try_unlock : String → String → Op Bool
try_unlock hyp session t = elim (lookup hyp t.locks) [
  | none ↦ returns false t
  | some l ↦
      if l.session_id == session
      then returns true (record t { locks = remove hyp t.locks })
      else returns false t
]

abbrev answer_unlock : Bool → String → Op Reply
answer_unlock true hyp t = (do broadcast (unlock_done hyp); pure ok) t
answer_unlock false hyp t = returns not_your_lock t

unfoldable pub unlock : String → String → Op Reply
unfolding broadcast try_unlock
unlock hyp session = do mine ← with_lock (try_unlock hyp session); answer_unlock mine hyp
