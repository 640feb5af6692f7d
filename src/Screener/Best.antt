-- ===== src/Screener/Best.antt =====
-- aqr/screener/vectorbt.py: the variants that the search returns.
use mathlib.Core.List.{Perm}
use pigeon_trade.Common.{
  ℕ, ◌+◌, ◌≤◌, ◌<◌, min, Bool, List, [], ◌∷◌, ◌++◌, map, keep, drop, length, ltb, length-take,
  take-append-drop, length-map, ltb→lt, Bool-cases, inl, inr, All, All-append, ◌≡◌, arith,
}
use pigeon_trade.Common.Sort.{
  sort_desc, IsDescending, sort_desc-IsDescending, sort_desc-perm, length-sort_desc, take-dominates,
  take-IsDescending,
}
use pigeon_trade.Screener.{
  RawStats, VariantResult, is_spread, pairs_of, variant, sharpe_rank, top_of,
}

All-spread :
    (f : ℕ) (slows : List ℕ) → All (λ p. p.0 + 5 < p.1) (keep is_spread (map (λ s. (f, s)) slows))
unfolding keep
All-spread f [] = tt
All-spread f (s ∷ ss) = elim (Bool-cases (ltb (f + 5) s)) [
  | inl e ↦ rw e (ltb→lt (f + 5) s e, All-spread f ss)
  | inr e ↦ rw e (All-spread f ss)
]

All-pairs_of : (fasts slows : List ℕ) → All (λ p. p.0 + 5 < p.1) (pairs_of fasts slows)
unfolding pairs_of
All-pairs_of [] slows = tt
All-pairs_of (f ∷ fs) slows =
    All-append (λ p. p.0 + 5 < p.1) (keep is_spread (map (λ s. (f, s)) slows)) (pairs_of fs slows)
      (All-spread f slows) (All-pairs_of fs slows)

module _ {F : Type 0} (nought : F) (is_nan : F → Bool) (backtest : List F → ℕ → ℕ → RawStats F)
    (rank : F → ℕ) where
  -- The search returns the best variants of the grid, by descending Sharpe ratio, as many as asked for:
  -- with the rest they are all variants, no other has a greater ratio than any of them, and the
  -- slow window of a pair of the grid is more than five bars longer than the fast one.
  pub top_of-best :
      (close : List F) (top_n : ℕ) (fasts slows : List ℕ)
      → (rest : List (VariantResult F)) × IsDescending
          (sharpe_rank nought is_nan backtest rank)
          (top_of nought is_nan backtest rank close top_n fasts slows)
        × Perm
            (top_of nought is_nan backtest rank close top_n fasts slows ++ rest)
            (map (variant nought is_nan backtest rank close) (pairs_of fasts slows))
        × All
            (λ t. All (λ r. rank r.sharpe ≤ rank t.sharpe) rest)
            (top_of nought is_nan backtest rank close top_n fasts slows)
        × (length (top_of nought is_nan backtest rank close top_n fasts slows)
            ≡ min top_n (length (pairs_of fasts slows)))
        × All (λ p. p.0 + 5 < p.1) (pairs_of fasts slows)
  top_of-best close top_n fasts slows =
      let key = sharpe_rank nought is_nan backtest rank in
      let all = map (variant nought is_nan backtest rank close) (pairs_of fasts slows) in
      let sorted = sort_desc key all in
      let d = sort_desc-IsDescending key all in
      (
        drop top_n sorted,
        take-IsDescending key top_n sorted d,
        rw (take-append-drop top_n sorted) (sort_desc-perm key all),
        take-dominates key top_n sorted d,
        omega (
          arith,
          length-take top_n sorted,
          length-sort_desc key all,
          length-map (variant nought is_nan backtest rank close) (pairs_of fasts slows),
        ),
        All-pairs_of fasts slows,
      )
