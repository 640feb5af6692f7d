-- ===== src/Events/Retention.antt =====
-- What the bus keeps of a run, and for how long (publish, _prune_finished_locked).
use pigeon_trade.Common.{
  ℕ, eqb, drop, ◌-◌, ◌≤◌, ◌<◌, String, Bool, true, false, none, some, List, [], ◌∷◌, ◌++◌, ◌==◌,
  ◌≡◌, ◌∙◌, refl, arith, eq_iff, if◌then◌else◌, length, length-drop,
}
use pigeon_trade.Common.Dict.{
  Dict, lookup, contains, Distinct, Distinct-insert, Distinct-remove, lookup-insert, lookup-remove,
}
use pigeon_trade.Events.{
  Event, Bus, get_list, is_expired, expired_runs, drop_run, drop_runs, prune, trim, publish,
  history_of, register_run, owns,
}

abbrev mem : String → List String → Bool
mem r [] = false
mem r (x ∷ xs) = if x == r then true else mem r xs

-- Whether the run ended a retention period ago or earlier.
abbrev pub run_expired : ℕ → String → Bus → Bool
run_expired now run b = elim (lookup run b.finished_at) [
  | none ↦ false
  | some t ↦ is_expired now b.retention t
]

mem-expired_runs_absent :
    (now retention : ℕ) (run : String) (d : Dict ℕ)
    → contains run d ≡ false
    → mem run (expired_runs now retention d) ≡ false
unfolding expired_runs contains
mem-expired_runs_absent now retention run [] h = refl
mem-expired_runs_absent now retention run ((k, t) ∷ d) h =
    ground (arith, mem-expired_runs_absent now retention run d, eq_iff k run)

mem-expired_runs :
    (now retention : ℕ) (run : String) (d : Dict ℕ)
    → Distinct d
    → mem run (expired_runs now retention d)
      ≡ elim (lookup run d) [ none ↦ false | some t ↦ is_expired now retention t ]
unfolding expired_runs lookup
mem-expired_runs now retention run [] h = refl
mem-expired_runs now retention run ((k, t) ∷ d) h = ground (
  arith,
  mem-expired_runs now retention run d h.1,
  mem-expired_runs_absent now retention run d,
  eq_iff k run,
)

lookup-drop_runs :
    (runs : List String) (run : String) (b : Bus)
    → lookup run (drop_runs runs b).history ≡ (if mem run runs then none else lookup run b.history)
unfolding drop_runs
lookup-drop_runs [] run b = refl
lookup-drop_runs (r ∷ runs) run b =
    ground
      (arith, lookup-drop_runs runs run (drop_run r b), lookup-remove r run b.history, eq_iff r run)

owner-drop_runs :
    (runs : List String) (run : String) (b : Bus)
    → lookup run (drop_runs runs b).owners ≡ (if mem run runs then none else lookup run b.owners)
unfolding drop_runs
owner-drop_runs [] run b = refl
owner-drop_runs (r ∷ runs) run b =
    ground
      (arith, owner-drop_runs runs run (drop_run r b), lookup-remove r run b.owners, eq_iff r run)

subscribers-drop_runs :
    (runs : List String) (run : String) (b : Bus)
    → lookup run (drop_runs runs b).subscribers
      ≡ (if mem run runs then none else lookup run b.subscribers)
unfolding drop_runs
subscribers-drop_runs [] run b = refl
subscribers-drop_runs (r ∷ runs) run b = ground (
  arith,
  subscribers-drop_runs runs run (drop_run r b),
  lookup-remove r run b.subscribers,
  eq_iff r run,
)

pub fields-drop_runs :
    (runs : List String) (b : Bus)
    → ((drop_runs runs b).queues ≡ b.queues)
      × ((drop_runs runs b).flags ≡ b.flags)
      × ((drop_runs runs b).history_limit ≡ b.history_limit)
unfolding drop_runs
fields-drop_runs [] b = (refl, refl, refl)
fields-drop_runs (r ∷ runs) b = fields-drop_runs runs (drop_run r b)

module _ (now : ℕ) (run : String) (b : Bus) (distinct : Distinct b.finished_at) where
  pub history-prune :
      lookup run (prune now b).history
      ≡ (if run_expired now run b then none else lookup run b.history)
  unfolding prune
  history-prune =
      rw (lookup-drop_runs (expired_runs now b.retention b.finished_at) run b)
        (rw (mem-expired_runs now b.retention run b.finished_at distinct))

  pub owner-prune :
      lookup run (prune now b).owners
      ≡ (if run_expired now run b then none else lookup run b.owners)
  unfolding prune
  owner-prune =
      rw (owner-drop_runs (expired_runs now b.retention b.finished_at) run b)
        (rw (mem-expired_runs now b.retention run b.finished_at distinct))

  pub subscribers-prune :
      lookup run (prune now b).subscribers
      ≡ (if run_expired now run b then none else lookup run b.subscribers)
  unfolding prune
  subscribers-prune =
      rw (subscribers-drop_runs (expired_runs now b.retention b.finished_at) run b)
        (rw (mem-expired_runs now b.retention run b.finished_at distinct))

abbrev kept_history : ℕ → String → Bus → List Event
kept_history now run b = if run_expired now run b then [] else history_of run b

abbrev own_part : Event → String → List Event
own_part e run = if e.run_id == run then e ∷ [] else []

history-if_trim :
    (now : ℕ) (e : Event) (run : String) (b : Bus)
    → history_of run (publish now e b) ≡ (
        if e.run_id == run
        then trim (prune now b).history_limit (history_of run (prune now b) ++ e ∷ [])
        else history_of run (prune now b))
unfolding publish history_of
history-if_trim now e run b = ground (
  arith,
  lookup-insert e.run_id run
      (trim (prune now b).history_limit (get_list e.run_id (prune now b).history ++ e ∷ []))
      (prune now b).history,
  eq_iff e.run_id run,
)

history_of-prune :
    (now : ℕ) (run : String) (b : Bus)
    → Distinct b.finished_at
    → history_of run (prune now b) ≡ kept_history now run b
unfolding history_of
history_of-prune now run b d = ground (arith, history-prune now run b d)

pub history-publish-trim :
    (now : ℕ) (e : Event) (run : String) (b : Bus)
    → Distinct b.finished_at
    → history_of run (publish now e b) ≡ (
        if e.run_id == run
        then trim b.history_limit (kept_history now run b ++ e ∷ [])
        else kept_history now run b)
unfolding prune
history-publish-trim now e run b d = ground (
  arith,
  history-if_trim now e run b,
  history_of-prune now run b d,
  (fields-drop_runs (expired_runs now b.retention b.finished_at) b).2,
)

drop-zero :
    (events : List Event) (limit : ℕ)
    → length events ≤ limit
    → drop (length events - limit) events ≡ events
drop-zero events limit h =
    let none_over : length events - limit ≡ 0 = omega arith in rw none_over refl

trim_lem :
    (limit : ℕ) (events : List Event)
    → trim limit events ≡ (if eqb limit 0 then events else drop (length events - limit) events)
unfolding trim
trim_lem limit events = ground (arith, drop-zero events limit)

-- Where no run is listed twice as finished: after `publish` the history of a run whose event it is not
-- is what it was, or nothing if the run ended a retention period ago; that of the event's run is
-- this with the event behind it, less its oldest events beyond the limit, of which the limit 0
-- drops none.
pub history-publish :
    (now : ℕ) (e : Event) (run : String) (b : Bus)
    → Distinct b.finished_at
    → let kept = if run_expired now run b then [] else history_of run b in
      let longer = kept ++ e ∷ [] in
      history_of run (publish now e b) ≡ (
        if e.run_id == run
        then (if eqb b.history_limit 0
            then longer
            else drop (length longer - b.history_limit) longer)
        else kept)
history-publish now e run b d =
    history-publish-trim now e run b d
    ∙ rw (trim_lem b.history_limit (kept_history now run b ++ e ∷ [])) refl

length-trim : (limit : ℕ) (events : List Event) → 0 < limit → length (trim limit events) ≤ limit
unfolding trim
length-trim limit events h = ground (arith, length-drop (length events - limit) events)

-- Each history of the bus is within the limit.
abbrev pub IsBounded : Bus → Type 0
IsBounded b = (run : String) → length (history_of run b) ≤ b.history_limit

limit-publish : (now : ℕ) (e : Event) (b : Bus) → (publish now e b).history_limit ≡ b.history_limit
unfolding publish prune
limit-publish now e b =
    ground (arith, (fields-drop_runs (expired_runs now b.retention b.finished_at) b).2)

-- With a positive limit, publishing keeps every history within the limit.
pub publish-IsBounded :
    (now : ℕ) (e : Event) (b : Bus)
    → Distinct b.finished_at
    → 0 < b.history_limit
    → IsBounded b
    → IsBounded (publish now e b)
publish-IsBounded now e b d pos bounded run = ground (
  arith,
  history-publish-trim now e run b d,
  limit-publish now e b,
  bounded run,
  length-trim b.history_limit (kept_history now run b ++ e ∷ []) pos,
)

-- With the limit 0 nothing is cut: a run that has not expired keeps every event.
pub publish_unlimited :
    (now : ℕ) (e : Event) (b : Bus)
    → Distinct b.finished_at
    → b.history_limit ≡ 0
    → run_expired now e.run_id b ≡ false
    → history_of e.run_id (publish now e b) ≡ history_of e.run_id b ++ e ∷ []
unfolding trim
publish_unlimited now e b d z alive =
    ground (arith, history-publish-trim now e e.run_id b d, eq_iff e.run_id e.run_id)

owners-publish : (now : ℕ) (e : Event) (b : Bus) → (publish now e b).owners ≡ (prune now b).owners
unfolding publish
owners-publish now e b = ground arith

-- A session owns a run after `publish` exactly when it owned it before and the run has not expired.
pub owns-publish :
    (now : ℕ) (e : Event) (run session : String) (b : Bus)
    → Distinct b.finished_at
    → owns run session (publish now e b)
      ≡ (if run_expired now run b then false else owns run session b)
unfolding owns
owns-publish now e run session b d =
    rw (owners-publish now e b) (ground (arith, owner-prune now run b d))

-- Registering a run makes it the session's alone, with an empty history, and leaves other runs.
pub owns-register_run :
    (run other session who : String) (b : Bus)
    → owns other who (register_run run session b)
      ≡ (if run == other then session == who else owns other who b)
unfolding owns register_run
owns-register_run run other session who b = ground (arith, lookup-insert run other session b.owners)

Distinct-drop_runs :
    (runs : List String) (b : Bus)
    → Distinct b.finished_at
    → Distinct (drop_runs runs b).finished_at
unfolding drop_runs
Distinct-drop_runs [] b d = d
Distinct-drop_runs (r ∷ runs) b d =
    Distinct-drop_runs runs (drop_run r b) (Distinct-remove r b.finished_at d)

-- The dict of finished runs stays one: no run is listed twice.
pub publish-Distinct :
    (now : ℕ) (e : Event) (b : Bus)
    → Distinct b.finished_at
    → Distinct (publish now e b).finished_at
unfolding publish prune
publish-Distinct now e b d = ground (
  arith,
  Distinct-drop_runs (expired_runs now b.retention b.finished_at) b d,
  Distinct-insert e.run_id now (prune now b).finished_at,
)
