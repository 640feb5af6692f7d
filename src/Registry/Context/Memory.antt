-- ===== src/Registry/Context/Memory.antt =====
-- aqr/graph/context.py: what the agent is told of its session.
use pigeon_trade.Common.{
  ℕ, suc, ◌≤◌, ◌<◌, String, Bool, true, false, not, Option, none, some, List, [], ◌∷◌, ◌++◌, map,
  keep, take, length, length-append, All, All-append, All-keep_self, ◌≡◌, refl, arith,
}
use pigeon_trade.Common.Dict.{Dict}
use pigeon_trade.Common.Sweep.{mem}
use pigeon_trade.Common.Except.{ok}
use pigeon_trade.Registry.{Tables, Run, HypothesisRow, Ordering, dsr_key, list_hypotheses_by_runs}
use pigeon_trade.Registry.Context.{
  Best, better_of, best_in, best_of, goal_of, ids_of, newest_runs, get_best_strategy, has_pair,
  collect, candidates, all_families, all_tickers, suggestions,
}

-- The DSR of the best so far, one more than the number, and 0 for none.
abbrev pub best_key : Option Best → ℕ
best_key none = 0
best_key (some best) = suc best.dsr

better_of-ge :
    (id goal : String) (h : HypothesisRow) (d : Option ℕ) (best : Option Best)
    → (best_key best ≤ best_key (better_of id goal h d best))
      × (elim d as (λ _. ℕ) [ none ↦ 0 | some x ↦ suc x ] ≤ best_key (better_of id goal h d best))
better_of-ge id goal h none best = (omega arith, omega arith)
better_of-ge id goal h (some d) none = (omega arith, omega arith)
better_of-ge id goal h (some d) (some b) = ground arith

abbrev pub AtMost : ℕ → List HypothesisRow → Type 0
AtMost k hs = All (λ h. dsr_key h ≤ k) hs

AtMost-mono : (j k : ℕ) (hs : List HypothesisRow) → j ≤ k → AtMost j hs → AtMost k hs
AtMost-mono j k [] l h = tt
AtMost-mono j k (x ∷ xs) l h = (omega arith, AtMost-mono j k xs l h.1)

best_in-ge :
    (id goal : String) (hs : List HypothesisRow) (best : Option Best)
    → (best_key best ≤ best_key (best_in id goal hs best))
      × AtMost (best_key (best_in id goal hs best)) hs
unfolding best_in
best_in-ge id goal [] best = (omega arith, tt)
best_in-ge id goal (h ∷ hs) best =
    let next = better_of id goal h h.dsr best in
    let (a, b) = better_of-ge id goal h h.dsr best in
    let (c, d) = best_in-ge id goal hs next in (omega (arith, a, c), (omega (arith, b, c), d))

best_of-ge :
    (runs : List (String × Run)) (groups : Dict (List HypothesisRow)) (best : Option Best)
    → (best_key best ≤ best_key (best_of runs groups best))
      × All (λ g. AtMost (best_key (best_of runs groups best)) g.1) groups
unfolding best_of
best_of-ge runs [] best = (omega arith, tt)
best_of-ge runs ((id, hs) ∷ groups) best =
    let next = best_in id (goal_of runs id) hs best in
    let (a, b) = best_in-ge id (goal_of runs id) hs best in
    let (c, d) = best_of-ge runs groups next in
    (omega (arith, a, c), (AtMost-mono (best_key next) _ hs c b, d))

module _ (order : Ordering) where
  -- The groups of hypotheses of the session's newest runs.
  abbrev pub groups_of : String → Tables → Dict (List HypothesisRow)
  groups_of session t = list_hypotheses_by_runs order (ids_of (newest_runs order session 20 t)) t

  -- No hypothesis of the session's newest twenty runs has a greater DSR than the best strategy, and
  -- where there is none, no hypothesis has a DSR.
  get_best_strategy_lem :
      (session : String) (t : Tables)
      → All
          (λ g. AtMost (best_key (get_best_strategy order session (ok t))) g.1)
          (groups_of session t)
  unfolding get_best_strategy
  get_best_strategy_lem session t =
      (best_of-ge (newest_runs order session 20 t) (groups_of session t) none).1

-- A pair that was not tested.
abbrev pub IsUntested : List (String × String) → String × String → Type 0
IsUntested tested c = has_pair c tested ≡ false

collect-IsUntested :
    (tested cs found : List (String × String))
    → All (IsUntested tested) found
    → All (IsUntested tested) (collect tested cs found)
unfolding collect
collect-IsUntested tested [] found h = h
collect-IsUntested tested (c ∷ cs) found h = ground (
  arith,
  collect-IsUntested tested cs found h,
  collect-IsUntested tested cs (found ++ c ∷ []),
  All-append (IsUntested tested) found (c ∷ []) h,
)

length-collect :
    (tested cs found : List (String × String))
    → length found < 5
    → length (collect tested cs found) ≤ 5
unfolding collect
length-collect tested [] found h = omega arith
length-collect tested (c ∷ cs) found h = ground (
  arith,
  length-collect tested cs found h,
  length-collect tested cs (found ++ c ∷ []),
  length-append found (c ∷ []),
)

collect-All :
    (P : String × String → Type 0) (tested cs found : List (String × String))
    → All P cs
    → All P found
    → All P (collect tested cs found)
unfolding collect
collect-All P tested [] found h k = k
collect-All P tested (c ∷ cs) found h k = ground (
  arith,
  collect-All P tested cs found h.1 k,
  collect-All P tested cs (found ++ c ∷ []) h.1,
  All-append P found (c ∷ []) k (h.0, tt),
)

fresh-IsUntested :
    (tested : List (String × String)) (f t : String)
    → mem t (map (λ c. c.1) tested) ≡ false
    → IsUntested tested (f, t)
fresh-IsUntested [] f t h = refl
fresh-IsUntested (d ∷ ds) f t h = ground (arith, fresh-IsUntested ds f t)

-- A ticker of no pair that was tested.
abbrev is_fresh : List (String × String) → String → Bool
is_fresh tested t = not (mem t (map (λ c. c.1) tested))

All-momentum :
    (tested : List (String × String)) (ts : List String)
    → All (λ t. is_fresh tested t ≡ true) ts
    → All (IsUntested tested) (map (λ t. ("momentum", t)) ts)
All-momentum tested [] h = tt
All-momentum tested (t ∷ ts) h =
    (fresh-IsUntested tested "momentum" t (ground arith), All-momentum tested ts h.1)

-- The members that an iteration over a set yields are members of the set.
abbrev pub IsIteration : (List String → List String) → Type 0
IsIteration listed =
    (p : String → Bool) (xs : List String)
    → All (λ x. p x ≡ true) xs
    → All (λ x. p x ≡ true) (listed xs)

module _ (listed : List String → List String) (iterates : IsIteration listed) where
  -- What get_untested_combos suggests behind its queries: at most five pairs, none of which was
  -- tested.
  pub suggestions-IsUntested :
      (tested : List (String × String))
      → (length (suggestions listed tested) ≤ 5)
        × All (IsUntested tested) (suggestions listed tested)
  unfolding suggestions
  suggestions-IsUntested tested =
      let tickers = listed (map (λ c. c.1) tested) in
      let cs = candidates (take 5 tickers) (listed all_families) in
      let first = collect tested cs [] in
      let fresh = keep (is_fresh tested) all_tickers in
      let more : List (String × String) = map (λ t. ("momentum", t)) (listed fresh) in
      let a = collect-IsUntested tested cs [] tt in
      let b = length-collect tested cs [] (omega arith) in
      let m =
        All-momentum tested (listed fresh)
          (iterates (is_fresh tested) fresh (All-keep_self (is_fresh tested) all_tickers)) in
      ground (
        arith,
        a,
        b,
        collect-All (IsUntested tested) [] more first m a,
        length-collect [] more first,
      )
