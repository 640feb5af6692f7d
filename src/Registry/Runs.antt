-- ===== src/Registry/Runs.antt =====
-- aqr/registry/store.py: the hypotheses of several runs in one query.
use mathlib.Core.List.{Perm}
use mathlib.Core.List.Perm
use pigeon_trade.Common.{
  ◌≤◌, String, Bool, true, Option, none, some, List, [], ◌∷◌, ◌++◌, keep, All-keep, ◌==◌, eq_iff,
  if◌then◌else◌, ◌≡◌, refl, sym, ap, ◌∙◌, arith, append_assoc, append-nil, Bool-cases, inl, inr,
}
use pigeon_trade.Common.Dict.{Dict, lookup, insert, lookup-insert}
use pigeon_trade.Common.Sweep.{mem}
use pigeon_trade.Common.Sort.{IsDescending}
use pigeon_trade.Common.Perm.{keep-perm}
use pigeon_trade.Registry.{
  Tables, HypothesisRow, Ordering, dsr_key, append_to, grouped, empty_groups,
  list_hypotheses_by_run, list_hypotheses_by_runs,
}

abbrev or_empty : Option (List HypothesisRow) → List HypothesisRow
or_empty none = []
or_empty (some hs) = hs

lookup-append_to :
    (id j : String) (h : HypothesisRow) (d : Dict (List HypothesisRow))
    → lookup id (append_to j h d)
      ≡ (if j == id then some (or_empty (lookup id d) ++ h ∷ []) else lookup id d)
unfolding append_to lookup
lookup-append_to id j h [] = refl
lookup-append_to id j h ((i, hs) ∷ d) =
    ground (arith, lookup-append_to id j h d, eq_iff i j, eq_iff j id, eq_iff i id)

lookup-grouped :
    (id : String) (hs base : List HypothesisRow) (d : Dict (List HypothesisRow))
    → lookup id d ≡ some base
    → lookup id (grouped hs d) ≡ some (base ++ keep (λ h. h.run_id == id) hs)
unfolding grouped keep
lookup-grouped id [] base d e = e ∙ ap some (sym (append-nil base))
lookup-grouped id (h ∷ hs) base d e = elim (Bool-cases (h.run_id == id)) [
  | inl t ↦
      lookup-grouped id hs (base ++ h ∷ []) (append_to h.run_id h d)
        (lookup-append_to id h.run_id h d ∙ rw t (rw e refl))
      ∙ rw t (ap some (append_assoc base (h ∷ []) (keep (λ g. g.run_id == id) hs)))
  | inr t ↦
      lookup-grouped id hs base (append_to h.run_id h d) (lookup-append_to id h.run_id h d ∙ rw t e)
      ∙ rw t refl
]

lookup-empty_groups :
    (id : String) (ids : List String) (d : Dict (List HypothesisRow))
    → lookup id (empty_groups ids d) ≡ (if mem id ids then some [] else lookup id d)
unfolding empty_groups
lookup-empty_groups id [] d = refl
lookup-empty_groups id (j ∷ ids) d =
    ground (arith, lookup-empty_groups id ids (insert j [] d), lookup-insert j id [] d)

IsDescending-keep :
    (p : HypothesisRow → Bool) (hs : List HypothesisRow)
    → IsDescending dsr_key hs
    → IsDescending dsr_key (keep p hs)
unfolding keep
IsDescending-keep p [] h = tt
IsDescending-keep p (x ∷ xs) h =
    ground (arith, IsDescending-keep p xs h.1, All-keep (λ y. dsr_key y ≤ dsr_key x) p xs h.0)

keep-keep :
    (id : String) (ids : List String) (hs : List HypothesisRow)
    → mem id ids ≡ true
    → keep (λ h. h.run_id == id) (keep (λ h. mem h.run_id ids) hs) ≡ keep (λ h. h.run_id == id) hs
unfolding keep
keep-keep id ids [] m = refl
keep-keep id ids (h ∷ hs) m = ground (arith, keep-keep id ids hs m, eq_iff h.run_id id)

module _ (order : Ordering) where
  -- In the answer of the batch each run that was asked for has the hypotheses that the query of the
  -- run alone returns, by descending DSR too.
  pub list_hypotheses_by_runs_lem :
      (ids : List String) (id : String) (db : Tables)
      → mem id ids ≡ true
      → (hs : List HypothesisRow) × (lookup id (list_hypotheses_by_runs order ids db) ≡ some hs)
        × IsDescending dsr_key hs
        × Perm hs (list_hypotheses_by_run order id db)
  unfolding list_hypotheses_by_runs list_hypotheses_by_run
  list_hypotheses_by_runs_lem [] id db m = absurd (ground arith)
  list_hypotheses_by_runs_lem (j ∷ ids) id db m =
      let ask = λ (h : HypothesisRow). mem h.run_id (j ∷ ids) in
      let mine = λ (h : HypothesisRow). h.run_id == id in
      let all = keep ask db.hypotheses in
      let sorted = order.desc dsr_key all in
      (
        keep mine sorted,
        lookup-grouped id sorted [] (empty_groups (j ∷ ids) [])
            (lookup-empty_groups id (j ∷ ids) [] ∙ rw m refl),
        IsDescending-keep mine sorted (order.desc-IsDescending dsr_key all),
        Perm.trans (keep-perm mine (order.desc-perm dsr_key all)) (
            rw (keep-keep id (j ∷ ids) db.hypotheses m)
              (Perm.symm (order.desc-perm dsr_key (keep mine db.hypotheses)))),
      )
