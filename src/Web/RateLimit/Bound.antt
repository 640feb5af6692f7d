-- ===== src/Web/RateLimit/Bound.antt =====
-- aqr/chat/web.py: how many requests the token bucket lets through.
use pigeon_trade.Common.{
  ℕ, ◌+◌, ◌-◌, ◌*◌, ◌≤◌, min, Bool, true, false, ◌&&◌, ◌==◌, String, Option, none, some, List, [],
  ◌∷◌, ltb, if◌then◌else◌, ◌≡◌, refl, ap, subst, ◌∙◌, arith, eq_iff, Bool-cases, inl, inr,
}
use pigeon_trade.Common.Dict.{lookup, insert, Distinct, lookup-insert, Distinct-insert}
use pigeon_trade.Common.Sweep.{stale_keys, swept, lookup-sweep, Distinct-remove_all}
use pigeon_trade.Web.RateLimit.{
  capacity, token, Buckets, prune_rate_buckets, refilled, available, rate_limit_consume, granted,
}

refilled-swept :
    (now : ℕ) (o : Option (ℕ × ℕ))
    → refilled now (swept (λ b. ltb 300000 (now - b.1)) o) ≡ refilled now o
refilled-swept now none = refl
refilled-swept now (some (tokens, last_ts)) = ground arith

-- A bucket that is pruned was full.
available-prune_rate_buckets :
    (ip : String) (now : ℕ) (d : Buckets)
    → Distinct d
    → available ip now (prune_rate_buckets now d) ≡ available ip now d
unfolding prune_rate_buckets
available-prune_rate_buckets ip now d h =
    ap (refilled now) (lookup-sweep (λ b. ltb 300000 (now - b.1)) ip d h)
    ∙ refilled-swept now (lookup ip d)

available-insert :
    (who ip : String) (tokens now : ℕ) (d : Buckets)
    → available ip now (insert who (tokens, now) d)
      ≡ (if who == ip then min capacity tokens else available ip now d)
available-insert who ip tokens now d =
    rw (lookup-insert who ip (tokens, now) d)
      (elim (Bool-cases (who == ip)) [ inl e ↦ rw e (omega arith) | inr e ↦ rw e ])

refilled-le : (now : ℕ) (o : Option (ℕ × ℕ)) → refilled now o ≤ capacity
refilled-le now none = omega arith
refilled-le now (some (tokens, last_ts)) = omega arith

Distinct-rate_limit_consume :
    (who : String) (now : ℕ) (d : Buckets) → Distinct d → Distinct (rate_limit_consume who now d).1
unfolding rate_limit_consume prune_rate_buckets
Distinct-rate_limit_consume who now d h =
    let full = Distinct-insert who (available who now d, now) d h in
    let left = Distinct-insert who (available who now d - token, now) d h in
    let pruned =
      Distinct-remove_all
        (stale_keys (λ b. ltb 300000 (now - b.1)) (insert who (available who now d - token, now) d))
        (insert who (available who now d - token, now) d) left in
    elim (Bool-cases (ltb (available who now d) token)) [ inl e ↦ rw e full | inr e ↦ rw e pruned ]

same_bucket :
    (who ip : String) (now : ℕ) (d : Buckets)
    → (if who == ip then min capacity (available who now d) else available ip now d) + 0
      ≡ available ip now d
same_bucket who ip now d = elim (Bool-cases (who == ip)) [
  | inl e ↦ rw e (rw ((eq_iff who ip).0 e) (omega (arith, refilled-le now (lookup ip d))))
  | inr e ↦ rw e (omega arith)
]

less_a_token :
    (who ip : String) (now : ℕ) (d : Buckets)
    → ltb (available who now d) token ≡ false
    → (if who == ip then min capacity (available who now d - token) else available ip now d)
        + (if true && who == ip then token else 0)
      ≡ available ip now d
less_a_token who ip now d f = elim (Bool-cases (who == ip)) [
  | inl e ↦ rw e (
      let same = ap (λ w. available w now d) ((eq_iff who ip).0 e) in
      let enough : token ≤ available who now d = ground (arith, f) in
      omega (arith, same, enough, refilled-le now (lookup who d)))
  | inr e ↦ rw e (omega arith)
]

-- A request that is granted costs its address a token, and nobody else anything.
available-rate_limit_consume :
    (who ip : String) (now : ℕ) (d : Buckets)
    → Distinct d
    → available ip now (rate_limit_consume who now d).1
        + (if (rate_limit_consume who now d).0 && who == ip then token else 0)
      ≡ available ip now d
unfolding rate_limit_consume
available-rate_limit_consume who ip now d h =
    let tokens = available who now d in
    let small = refilled-le now (lookup who d) in
    let left = Distinct-insert who (tokens - token, now) d h in
    elim (Bool-cases (ltb tokens token)) [
      | inl e ↦ rw e (rw (available-insert who ip tokens now d) (same_bucket who ip now d))
      | inr e ↦ rw e (
          rw (available-prune_rate_buckets ip now (insert who (tokens - token, now) d) left)
            (rw (available-insert who ip (tokens - token) now d) (less_a_token who ip now d e)))
    ]

refilled_later :
    (before now : ℕ) (o : Option (ℕ × ℕ))
    → before ≤ now
    → refilled now o ≤ refilled before o + (now - before)
refilled_later before now none h = omega arith
refilled_later before now (some (tokens, last_ts)) h = omega arith

available_later :
    (ip : String) (before now : ℕ) (d : Buckets)
    → before ≤ now
    → available ip now d ≤ available ip before d + (now - before)
available_later ip before now d h = refilled_later before now (lookup ip d) h

-- The time of the last request.
abbrev pub finish : ℕ → List (String × ℕ) → ℕ
finish start [] = start
finish start ((who, now) ∷ requests) = finish now requests

-- The times do not decrease.
abbrev pub IsOrdered : ℕ → List (String × ℕ) → Type 0
IsOrdered start [] = Unit
IsOrdered start ((who, now) ∷ requests) = (start ≤ now) × IsOrdered now requests

finish-ge :
    (start : ℕ) (requests : List (String × ℕ))
    → IsOrdered start requests
    → start ≤ finish start requests
finish-ge start [] h = omega arith
finish-ge start ((who, now) ∷ requests) h = omega (arith, h.0, finish-ge now requests h.1)

paid :
    (b c : Bool) (m n : ℕ)
    → b ≡ c
    → m + (if b then token else 0) ≡ n
    → m + (if c then token else 0) ≡ n
paid b c m n e h = subst (λ x. m + (if x then token else 0) ≡ n) e h

granted-available :
    (ip : String) (start : ℕ) (requests : List (String × ℕ)) (d : Buckets)
    → Distinct d
    → IsOrdered start requests
    → token * granted ip requests d ≤ available ip start d + (finish start requests - start)
unfolding granted
granted-available ip start [] d h o = omega arith
granted-available ip start ((who, now) ∷ requests) d h o =
    let d' = (rate_limit_consume who now d).1 in
    let rest = granted-available ip now requests d' (Distinct-rate_limit_consume who now d h) o.1 in
    let cost = available-rate_limit_consume who ip now d h in
    let granting = (rate_limit_consume who now d).0 && who == ip in
    let later = available_later ip start now d o.0 in
    let goes_on = finish-ge now requests o.1 in
    elim (Bool-cases granting) [
      | inl e ↦ rw e (
          omega (
            arith,
            rest,
            paid granting true (available ip now d') (available ip now d) e cost,
            later,
            goes_on,
          ))
      | inr e ↦ rw e (
          omega (
            arith,
            rest,
            paid granting false (available ip now d') (available ip now d) e cost,
            later,
            goes_on,
          ))
    ]

-- From buckets with distinct addresses on, and at times that do not decrease, the requests of an
-- address that are granted, whatever the other addresses send and the pruning drops, are at most five
-- and one for each thirty seconds that have passed.
pub granted-le :
    (ip : String) (start : ℕ) (requests : List (String × ℕ)) (d : Buckets)
    → Distinct d
    → IsOrdered start requests
    → token * granted ip requests d ≤ 5 * token + (finish start requests - start)
granted-le ip start requests d h o =
    omega (arith, granted-available ip start requests d h o, refilled-le start (lookup ip d))
