-- ===== src/Registry/Context.antt =====
-- aqr/graph/context.py: SessionContext, on the registry. A database that fails yields the default.
-- `listed` is the order in which a set is iterated over.
pub mod Memory
use pigeon_trade.Common.{
  ℕ, zero, suc, ◌+◌, ◌≤◌, ◌<◌, String, Bool, true, false, ◌&&◌, not, Option, none, some, List, [],
  ◌∷◌, ◌++◌, map, keep, take, length, All, ◌==◌, eq_iff, leb, ltb, if◌then◌else◌, ◌≡◌, refl, sym,
  ap, ◌∙◌, arith, Bool-cases, inl, inr,
}
use pigeon_trade.Common.Dict.{Dict, lookup}
use pigeon_trade.Common.Sweep.{mem}
use pigeon_trade.Common.Except.{Except, ok, raise, ◌>>=◌, or_else}
use pigeon_trade.Registry.{
  Tables, Run, HypothesisRow, Ordering, dsr_key, list_runs_by_session, list_hypotheses_by_runs,
}

-- The dict of the best hypothesis; the row has its other keys.
pub record Best : Type 0 where
  pub run_id : String
  pub goal : String
  pub dsr : ℕ
  pub row : HypothesisRow

abbrev goal_of : List (String × Run) → String → String
goal_of runs id = elim (lookup id runs) [ none ↦ "" | some r ↦ r.goal ]

abbrev pub beats : ℕ → Option Best → Bool
beats d none = true
beats d (some best) = ltb best.dsr d

abbrev pub better_of : String → String → HypothesisRow → Option ℕ → Option Best → Option Best
better_of id goal h none best = best
better_of id goal h (some d) best =
    if beats d best then some (record { run_id = id; goal = goal; dsr = d; row = h }) else best

-- The loop over the hypotheses of one run.
unfoldable pub best_in : String → String → List HypothesisRow → Option Best → Option Best
best_in id goal [] best = best
best_in id goal (h ∷ hs) best = best_in id goal hs (better_of id goal h h.dsr best)

-- The loop over by_run.items()
unfoldable pub best_of : List (String × Run) → Dict (List HypothesisRow) → Option Best → Option Best
unfolding best_in
best_of runs [] best = best
best_of runs ((id, hs) ∷ groups) best = best_of runs groups (best_in id (goal_of runs id) hs best)

abbrev pub ids_of : List (String × Run) → List String
ids_of runs = map (λ r. r.0) runs

module _ (order : Ordering) where
  -- get_recent_runs
  unfoldable pub get_recent_runs : String → ℕ → Except Tables → List (String × Run)
  get_recent_runs session limit db =
      or_else (db >>= λ t. ok (list_runs_by_session order session limit 0 t)) []

  abbrev pub newest_runs : String → ℕ → Tables → List (String × Run)
  newest_runs session limit db = list_runs_by_session order session limit 0 db

  -- get_best_strategy
  unfoldable pub get_best_strategy : String → Except Tables → Option Best
  unfolding best_of
  get_best_strategy session db =
      or_else
        (db >>= λ t.
          let runs = newest_runs session 20 t in
          ok (best_of runs (list_hypotheses_by_runs order (ids_of runs) t) none))
        none

abbrev pub has_pair : String × String → List (String × String) → Bool
has_pair c [] = false
has_pair c (d ∷ ds) = if d.0 == c.0 && d.1 == c.1 then true else has_pair c ds

-- The pairs of family and ticker of the hypotheses.
unfoldable pub tested_pairs : Dict (List HypothesisRow) → List (String × String)
tested_pairs [] = []
tested_pairs ((id, hs) ∷ groups) = map (λ h. (h.family, h.ticker)) hs ++ tested_pairs groups

-- One loop over candidates: it ends at the fifth suggestion.
unfoldable pub collect :
    List (String × String)
    → List (String × String)
    → List (String × String)
    → List (String × String)
collect tested [] found = found
collect tested (c ∷ cs) found =
    let skipped = collect tested cs found in
    let added = collect tested cs (found ++ c ∷ []) in
    if has_pair c tested
    then skipped
    else if leb 5 (length (found ++ c ∷ []))
    then found ++ c ∷ []
    else added

unfoldable pub candidates : List String → List String → List (String × String)
candidates [] families = []
candidates (t ∷ ts) families = map (λ f. (f, t)) families ++ candidates ts families

abbrev pub all_families : List String
all_families = "momentum" ∷ "mean_reversion" ∷ "breakout" ∷ "volatility" ∷ []

abbrev pub all_tickers : List String
all_tickers = "SBER" ∷ "GAZP" ∷ "LKOH" ∷ "GMKN" ∷ "ROSN" ∷ "TATN" ∷ "CHMF" ∷ "NLMK" ∷ []

-- The two loops, behind the queries.
unfoldable pub suggestions :
    (List String → List String) → List (String × String) → List (String × String)
unfolding collect candidates
suggestions listed tested =
    let tickers = listed (map (λ c. c.1) tested) in
    let first = collect tested (candidates (take 5 tickers) (listed all_families)) [] in
    let fresh = keep (λ t. not (mem t (map (λ c. c.1) tested))) all_tickers in
    if leb 5 (length first)
    then first
    else collect [] (map (λ t. ("momentum", t)) (listed fresh)) first

module _ (order : Ordering) (listed : List String → List String) where
  abbrev untested : Tables → List (String × Run) → List (String × String)
  untested t [] = []
  untested t (r ∷ rs) =
      suggestions listed (tested_pairs (list_hypotheses_by_runs order (ids_of (r ∷ rs)) t))

  -- get_untested_combos
  unfoldable pub get_untested_combos : String → Except Tables → List (String × String)
  unfolding suggestions tested_pairs
  get_untested_combos session db =
      or_else (db >>= λ t. ok (untested t (list_runs_by_session order session 50 0 t))) []
