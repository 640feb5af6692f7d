-- ===== src/Storage.antt =====
-- aqr/tools/storage.py: the agent's tools over the registry. A reply keeps the fields of the dict that
-- the registry's rows give; `uuid` is uuid.UUID, `none` where it raises, and `rounded` is
-- round(1 - distance, 3).
pub mod Threshold
mod Examples
use pigeon_trade.Common.{
  ℕ, ◌-◌, String, Option, none, some, List, [], ◌∷◌, map, keep, leb, if◌then◌else◌, take,
}
use pigeon_trade.Common.Except.{Except, ok, ◌>>=◌}
use pigeon_trade.Research.{ℤ, pos, negsuc}
use pigeon_trade.Registry.{
  Tables, Run, Metrics, HypothesisRow, Ordering, get_run, list_hypotheses_by_run,
  list_runs_by_session,
}
use pigeon_trade.Registry.Search.{reaches, search_by_text}

-- What the tools return: a dict with the key "error", or the answer.
pub data Answer {ℓ} (A : Type ℓ) : Type ℓ where
  error : String → Answer A
  answer : A → Answer A

pub record RunDetail : Type 0 where
  pub id : String
  pub run : Run
  pub hypotheses : List HypothesisRow

-- ma.get(...), for a run without metrics too
pub record Side : Type 0 where
  pub id : String
  pub goal : String
  pub metrics : Option Metrics

pub record Comparison : Type 0 where
  pub run_a : Side
  pub run_b : Side
  pub delta_survived : ℤ
  pub delta_pbo : ℤ

pub record Similar : Type 0 where
  pub family : String
  pub ticker : String
  pub similarity : ℤ
  pub dsr : Option ℕ
  pub sharpe : Option ℤ
  pub run_id : String

-- a - b
abbrev pub difference : ℕ → ℕ → ℤ
difference a b = if leb b a then pos (a - b) else negsuc (b - a - 1)

-- (m.get(key) or 0)
abbrev pub survived_in : Option Metrics → ℕ
survived_in none = 0
survived_in (some m) = m.n_survived_dsr

abbrev pub pbo_in : Option Metrics → ℕ
pbo_in none = 0
pbo_in (some m) = m.portfolio_pbo

module _ (uuid : String → Option String) (order : Ordering) where
  abbrev detail_of : String → Tables → Option Run → Answer RunDetail
  detail_of id db none = error "Run not found"
  detail_of id db (some run) =
      answer (record { id = id; run = run; hypotheses = list_hypotheses_by_run order id db })

  -- get_run of the tools
  unfoldable pub get_run_tool : String → Tables → Answer RunDetail
  get_run_tool run_id db = elim (uuid run_id) [
    | none ↦ error "Invalid run_id"
    | some id ↦ detail_of id db (get_run id db)
  ]

  abbrev pub side : String → Run → Side
  side id run = record { id = id; goal = run.goal; metrics = run.summary_metrics }

  abbrev compared : String → String → Option Run → Option Run → Answer Comparison
  compared a b none y = error "Один или оба прогона не найдены"
  compared a b (some run_a) none = error "Один или оба прогона не найдены"
  compared a b (some run_a) (some run_b) =
      let ma = run_a.summary_metrics in
      let mb = run_b.summary_metrics in
      answer (record {
        run_a = side a run_a;
        run_b = side b run_b;
        delta_survived = difference (survived_in mb) (survived_in ma);
        delta_pbo = difference (pbo_in mb) (pbo_in ma);
      })

  unfoldable pub compare_runs : String → String → Tables → Answer Comparison
  compare_runs run_id_a run_id_b db = elim (uuid run_id_a) [
    | none ↦ error "Invalid run_id"
    | some a ↦ elim (uuid run_id_b) [
      | none ↦ error "Invalid run_id"
      | some b ↦ compared a b (get_run a db) (get_run b db)
    ]
  ]

  unfoldable pub list_runs : String → ℕ → Tables → List (String × Run)
  list_runs session limit db = list_runs_by_session order session limit 0 db

module _ (order : Ordering) (distance : List ℤ → List ℤ → ℕ) (rounded : ℕ → ℤ) where
  abbrev pub similar_of : HypothesisRow × ℕ → Similar
  similar_of (h, d) = record {
    family = h.family;
    ticker = h.ticker;
    similarity = rounded d;
    dsr = h.dsr;
    sharpe = h.sharpe;
    run_id = h.run_id;
  }

  -- search_similar_hypotheses; `embed` is the embedder's
  unfoldable pub search_similar_hypotheses :
      (String → Except (List ℤ)) → String → ℕ → ℕ → Tables → Except (List Similar)
  search_similar_hypotheses embed text threshold limit db = do
    rows ← search_by_text order distance embed text limit db
    ok (map similar_of (keep (reaches threshold) rows))

  -- find_duplicates
  unfoldable pub find_duplicates :
      (String → Except (List ℤ)) → String → ℕ → ℕ → Tables → Except (List Similar)
  unfolding search_similar_hypotheses
  find_duplicates embed text threshold limit db =
      search_similar_hypotheses embed text threshold limit db
