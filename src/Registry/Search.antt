-- ===== src/Registry/Search.antt =====
-- aqr/registry/store.py: the search by embeddings. pgvector's cosine distance is a parameter, in
-- millionths; it is at most 2, so that ascending distances are descending gaps from 2.
use mathlib.Core.List.{Perm}
use pigeon_trade.Common.{
  ℕ, ◌+◌, ◌-◌, ◌*◌, ◌<◌, String, Bool, none, some, List, [], ◌∷◌, keep, take, leb, ltb,
  if◌then◌else◌, ◌≡◌, ap, ◌∙◌, arith, take-take, Bool-cases, inl, inr,
}
use pigeon_trade.Common.Sort.{IsDescending, IsMonotone, keep-take}
use pigeon_trade.Common.Except.{Except, ok, ◌>>=◌}
use pigeon_trade.Research.{ℤ}
use pigeon_trade.Registry.{Tables, HypothesisRow, Ordering}

-- 1, in millionths
abbrev pub one : ℕ
one = 1000000

abbrev pub gap : HypothesisRow × ℕ → ℕ
gap r = 2 * one - r.1

-- float(s) >= threshold, where the similarity is 1 less the distance
abbrev pub reaches : ℕ → HypothesisRow × ℕ → Bool
reaches threshold r = leb (r.1 + threshold) one

abbrev pub at_threshold : ℕ → List (HypothesisRow × ℕ) → List (HypothesisRow × ℕ)
at_threshold threshold rows = if ltb 0 threshold then keep (reaches threshold) rows else rows

module _ (order : Ordering) (distance : List ℤ → List ℤ → ℕ) where
  -- WHERE embedding IS NOT NULL, with the distance of each row
  unfoldable pub with_distance : List ℤ → List HypothesisRow → List (HypothesisRow × ℕ)
  with_distance e [] = []
  with_distance e (h ∷ hs) =
      let rest = with_distance e hs in
      elim h.embedding [ none ↦ rest | some v ↦ (h, distance v e) ∷ rest ]

  -- The rows by distance, the nearest first.
  abbrev pub nearest : List ℤ → Tables → List (HypothesisRow × ℕ)
  nearest e db = order.desc gap (with_distance e db.hypotheses)

  -- search_similar
  unfoldable pub search_similar : List ℤ → ℕ → ℕ → Tables → List (HypothesisRow × ℕ)
  unfolding with_distance
  search_similar e threshold limit db =
      take limit (at_threshold threshold (take (limit * 2) (nearest e db)))

  -- search_by_text
  unfoldable pub search_by_text :
      (String → Except (List ℤ)) → String → ℕ → Tables → Except (List (HypothesisRow × ℕ))
  unfolding search_similar
  search_by_text embed text limit db = do e ← embed text; ok (search_similar e 0 limit db)

  pub reaches-IsMonotone : (threshold : ℕ) → 0 < threshold → IsMonotone gap (reaches threshold)
  reaches-IsMonotone threshold p x y h q = ground arith

  -- The search returns the nearest of all rows with an embedding that reach the threshold, as many
  -- as the limit allows: the cut at twice the limit before the test of the threshold loses none.
  pub search_similar-nearest :
      (e : List ℤ) (threshold limit : ℕ) (db : Tables)
      → (search_similar e threshold limit db ≡ take limit (at_threshold threshold (nearest e db)))
        × IsDescending gap (nearest e db)
        × Perm (nearest e db) (with_distance e db.hypotheses)
  unfolding search_similar
  search_similar-nearest e threshold limit db =
      let d = order.desc-IsDescending gap (with_distance e db.hypotheses) in
      (
        elim (Bool-cases (ltb 0 threshold)) [
          | inl p ↦ rw p (
              ap (take limit) (
                keep-take gap (reaches threshold) (limit * 2) (nearest e db)
                  (reaches-IsMonotone threshold (ground arith)) d)
              ∙ take-take limit (limit * 2) (keep (reaches threshold) (nearest e db)) (omega arith))
          | inr p ↦ rw p (take-take limit (limit * 2) (nearest e db) (omega arith))
        ],
        d,
        order.desc-perm gap (with_distance e db.hypotheses),
      )
