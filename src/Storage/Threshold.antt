-- ===== src/Storage/Threshold.antt =====
-- aqr/tools/storage.py: the search of the tool and that of the registry.
use pigeon_trade.Common.{
  ℕ, ◌<◌, String, List, map, keep, take, ◌≡◌, refl, ap, sym, ◌∙◌, lt→ltb, inl, inr,
}
use pigeon_trade.Common.Except.{Except, ok, ◌>>=◌, Except-cases}
use pigeon_trade.Common.Sort.{keep-take}
use pigeon_trade.Research.{ℤ}
use pigeon_trade.Registry.{Tables, Ordering}
use pigeon_trade.Registry.Search.{
  gap, reaches, nearest, with_distance, search_similar, search_by_text, reaches-IsMonotone,
  search_similar-nearest,
}
use pigeon_trade.Storage.{similar_of, search_similar_hypotheses}

module _ (order : Ordering) (distance : List ℤ → List ℤ → ℕ) where
  -- The test of the threshold behind the limit returns the same rows as the test before it.
  kept_behind :
      (e : List ℤ) (threshold limit : ℕ) (db : Tables)
      → 0 < threshold
      → keep (reaches threshold) (search_similar order distance e 0 limit db)
        ≡ search_similar order distance e threshold limit db
  kept_behind e threshold limit db p =
      let rows = nearest order distance e db in
      let kept =
        keep-take gap (reaches threshold) limit rows (reaches-IsMonotone order distance threshold p)
          (order.desc-IsDescending gap (with_distance order distance e db.hypotheses)) in
      let all : search_similar order distance e 0 limit db ≡ take limit rows =
        (search_similar-nearest order distance e 0 limit db).0 in
      let some_of : search_similar order distance e threshold limit db
          ≡ take limit (keep (reaches threshold) rows) =
        (search_similar-nearest order distance e threshold limit db).0
        ∙ rw (lt→ltb 0 threshold p) refl in
      ap (keep (reaches threshold)) all ∙ kept ∙ sym some_of

  -- With a threshold above zero, the tool's search for similar hypotheses finds what the registry's
  -- search at this threshold does, and fails where the embedder does.
  pub search_similar_hypotheses_lem :
      (rounded : ℕ → ℤ) (embed : String → Except (List ℤ)) (text : String) (threshold limit : ℕ)
      (db : Tables)
      → 0 < threshold
      → search_similar_hypotheses order distance rounded embed text threshold limit db ≡ (
          embed text >>= λ e. ok (
            map
              (similar_of order distance rounded)
              (search_similar order distance e threshold limit db)))
  unfolding search_similar_hypotheses search_by_text
  search_similar_hypotheses_lem rounded embed text threshold limit db p =
      elim (Except-cases (embed text)) [
        | inl (e, k) ↦ rw k (
            ap (λ rows. ok (map (similar_of order distance rounded) rows))
              (kept_behind e threshold limit db p))
        | inr (x, k) ↦ rw k
      ]
