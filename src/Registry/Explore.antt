-- ===== src/Registry/Explore.antt =====
-- aqr/registry/store.py: the queries of the explore pages. Ids and times are left as they are.
use pigeon_trade.Common.{
  ℕ, ◌≤◌, String, Bool, true, false, ◌&&◌, Option, none, some, List, [], ◌∷◌, map, keep, take, drop,
  length, All, All-keep_self, All-take, All-drop, length-map, length-take, ◌==◌, eq_iff, eqb, ltb,
  if◌then◌else◌, ◌≡◌, arith,
}
use pigeon_trade.Common.Dict.{Dict, lookup}
use pigeon_trade.Common.Perm.{All-perm}
use pigeon_trade.Research.{ℤ, pos, negsuc}
use pigeon_trade.Registry.{Tables, Run, HypothesisRow, Ordering}

abbrev verdict_of : Option ℤ → String
verdict_of none = "idea"
verdict_of (some (pos s)) = if ltb 1000 s then "screening" else "rejected"
verdict_of (some (negsuc s)) = "rejected"

-- _hyp_verdict
unfoldable pub hyp_verdict : HypothesisRow → String
hyp_verdict h = if h.is_valid then "approved" else verdict_of h.sharpe

-- JOIN runs ON hypotheses.run_id = runs.id
unfoldable pub joined : List HypothesisRow → Dict Run → List (HypothesisRow × Run)
joined [] runs = []
joined (h ∷ hs) runs =
    let rest = joined hs runs in
    elim (lookup h.run_id runs) [ none ↦ rest | some r ↦ (h, r) ∷ rest ]

abbrev pub is_of : String → HypothesisRow × Run → Bool
is_of session r = r.1.session_id == session

-- The rows that the queries share: those of the session's runs.
abbrev pub rows_of : String → Tables → List (HypothesisRow × Run)
rows_of session db = keep (is_of session) (joined db.hypotheses db.runs)

-- An entry of the table of hypotheses; the other columns are the row's.
pub record Entry : Type 0 where
  pub row : HypothesisRow
  pub verdict : String
  pub owner : String

abbrev entry_of : HypothesisRow × Run → Entry
entry_of r = record { row = r.0; verdict = hyp_verdict r.0; owner = r.1.session_id }

-- list_all_hypotheses
unfoldable pub list_all_hypotheses : Ordering → String → ℕ → ℕ → Tables → List Entry
unfolding joined hyp_verdict
list_all_hypotheses order session limit offset db =
    map entry_of (take limit (drop offset (order.desc (λ r. r.0.created_at) (rows_of session db))))

abbrev only : List (HypothesisRow × Run) → Option (HypothesisRow × Run)
only [] = none
only (r ∷ rs) = some r

abbrev entry_or_none : Option (HypothesisRow × Run) → Option (Entry × String)
entry_or_none none = none
entry_or_none (some r) = some (entry_of r, r.1.goal)

-- get_hypothesis_detail, with the run's goal; an id is a key
unfoldable pub get_hypothesis_detail : String → String → Tables → Option (Entry × String)
unfolding joined hyp_verdict
get_hypothesis_detail id session db =
    entry_or_none
      (only (keep (λ r. r.0.id == id && is_of session r) (joined db.hypotheses db.runs)))

pub record Stats : Type 0 where
  pub total_hypotheses : ℕ
  pub total_runs : ℕ
  pub approved : ℕ
  -- The two numbers of the quotient.
  pub win_rate : Option (ℕ × ℕ)

-- get_explore_stats
unfoldable pub get_explore_stats : String → Tables → Stats
unfolding joined
get_explore_stats session db =
    let hyp_count = length (rows_of session db) in
    let n_valid =
      length (keep (λ r. r.0.is_valid && is_of session r) (joined db.hypotheses db.runs)) in
    record {
      total_hypotheses = hyp_count;
      total_runs = length (keep (λ r. r.1.session_id == session) db.runs);
      approved = n_valid;
      win_rate = if eqb hyp_count 0 then none else some (n_valid, hyp_count);
    }

-- A page of entries that are all the session's.
abbrev pub AreOwn : String → List Entry → Type 0
AreOwn session es = All (λ e. e.owner ≡ session) es

and_right : (a b : Bool) → a && b ≡ true → b ≡ true
and_right true b h = h
and_right false b h = absurd (ground arith)

AreOwn-entries :
    (session : String) (rs : List (HypothesisRow × Run))
    → All (λ r. is_of session r ≡ true) rs
    → AreOwn session (map entry_of rs)
AreOwn-entries session [] h = tt
AreOwn-entries session (r ∷ rs) h =
    ((eq_iff r.1.session_id session).0 h.0, AreOwn-entries session rs h.1)

abbrev pub IsOwnDetail : (session : String) (d : Option (Entry × String)) → Type 0
IsOwnDetail session none = Unit
IsOwnDetail session (some d) = d.0.owner ≡ session

IsOwnDetail-only :
    (session : String) (p : HypothesisRow × Run → Bool) (rs : List (HypothesisRow × Run))
    → All (λ r. p r && is_of session r ≡ true) rs
    → IsOwnDetail session (entry_or_none (only rs))
IsOwnDetail-only session p [] h = tt
IsOwnDetail-only session p (r ∷ rs) h =
    (eq_iff r.1.session_id session).0 (and_right (p r) (is_of session r) h.0)

-- The pages show a session its own hypotheses only: a page of the table has at most as many entries
-- as its limit, each of a run of the session, and so is the hypothesis of a detail page.
pub explore-AreOwn :
    (order : Ordering) (session id : String) (limit offset : ℕ) (db : Tables)
    → AreOwn session (list_all_hypotheses order session limit offset db)
      × (length (list_all_hypotheses order session limit offset db) ≤ limit)
      × IsOwnDetail session (get_hypothesis_detail id session db)
unfolding list_all_hypotheses get_hypothesis_detail
explore-AreOwn order session id limit offset db =
    let rows = rows_of session db in
    let sorted = order.desc (λ r. r.0.created_at) rows in
    let own =
      All-perm (is_of session) (order.desc-perm (λ r. r.0.created_at) rows)
        (All-keep_self (is_of session) (joined db.hypotheses db.runs)) in
    (
      AreOwn-entries session (take limit (drop offset sorted)) (
          All-take (λ r. is_of session r ≡ true) limit (drop offset sorted)
            (All-drop (λ r. is_of session r ≡ true) offset sorted own)),
      omega (
        arith,
        length-map entry_of (take limit (drop offset sorted)),
        length-take limit (drop offset sorted),
      ),
      IsOwnDetail-only session (λ r. r.0.id == id) _
          (All-keep_self (λ r. r.0.id == id && is_of session r) (joined db.hypotheses db.runs)),
    )
