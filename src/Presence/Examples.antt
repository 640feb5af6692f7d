-- ===== src/Presence/Examples.antt =====
-- The theorems on the presence tracker (aqr/explore/presence.py) at a tracker with one lock.
use pigeon_trade.Common.{ℕ, String, Bool, false, some, List, [], ◌∷◌, ◌≡◌, refl}
use pigeon_trade.Common.Dict.{lookup}
use pigeon_trade.Presence.{Tracker, lock, remove_session}
use pigeon_trade.Presence.Locking.{
  Ensures, IsHeldBy, Call, locks, unlocks, heartbeats, run, lock_lem, run_keeps, holder, lock_reply,
}
use pigeon_trade.Presence.Deadlock.{IsStuck, remove_session-IsStuck}

abbrev alice_holds : Bool → Tracker
alice_holds held = record {
  held = held;
  sessions = ("alice", record { name = "Alice"; hyp_id = some "h1"; last_seen = 5 }) ∷ [];
  locks = ("h1", record { session_id = "alice"; locked_at = 5 }) ∷ [];
  subscribers = 0 ∷ [];
  queues = λ _. [];
  next_queue = 1;
}

lock_lem_example : Ensures (lock 9 "h1" "bob" "Bob" (alice_holds false)) (λ r t'.
    (t'.held ≡ false) × (r ≡ lock_reply (some "alice") "bob") × (holder "h1" t' ≡ some "alice"))
unfolding lookup
lock_lem_example = lock_lem 9 "h1" "bob" "Bob" "h1" (alice_holds false) refl

bob_calls : List (ℕ × String × Call)
bob_calls =
    (6, "Bob", locks "h1" "bob")
    ∷ (7, "Bob", unlocks "h1" "bob")
    ∷ (8, "Bob", heartbeats "bob" (some "h1"))
    ∷ []

run_keeps_example : IsHeldBy "h1" "alice" (run (alice_holds false) bob_calls)
unfolding bob_calls lookup
run_keeps_example =
    run_keeps "h1" "alice" bob_calls (alice_holds false) ((λ e. cc), ((λ e. cc), ((λ e. cc), tt)))
      (refl, refl)

remove_session-IsStuck_example : IsStuck (remove_session 9 "alice" (alice_holds false))
remove_session-IsStuck_example = remove_session-IsStuck 9 "alice" (alice_holds false) refl refl
