-- ===== src/Validation/Bootstrap.antt =====
-- aqr/validation/reality_check.py: the block bootstrap of the Sharpe ratio and of White's reality check.
-- numpy's generator is a parameter, `draw`, as are the floats, `quantile` and int(n ** (1/3)). A matrix
-- is its columns. A loop that never ends is `none`; the fuel is the number of rows.
pub mod Ends
mod Examples
use pigeon_trade.Common.{
  ℕ, zero, suc, ◌+◌, ◌-◌, ◌*◌, ◌%◌, min, max, Bool, String, Option, none, some, List, [], ◌∷◌, ◌++◌,
  map, length, get_elem?, keep, ltb, eqb, if◌then◌else◌,
}
use pigeon_trade.Common.Options.{◌>>=◌}
use pigeon_trade.Common.Except.{Except, ok, raise}
use pigeon_trade.Floats.{Floats, larger}
use pigeon_trade.Validation.Sharpe.{without_nan, sharpe_of}

-- (start + j) % n, for `len` values of j
unfoldable pub block_at : ℕ → ℕ → ℕ → List ℕ
block_at n start zero = []
block_at n start (suc len) = (start % n) ∷ block_at n (suc start) len

-- block_size, or its default
abbrev pub block_of : (ℕ → ℕ) → ℕ → Option ℕ → ℕ
block_of cube_root n none = max (cube_root n) 5
block_of cube_root n (some block) = block

module _ {Rng : Type 0} (draw : ℕ → Rng → ℕ × Rng) where
  abbrev pub after_block : List ℕ → Option (List ℕ × Rng) → Option (List ℕ × Rng)
  after_block xs none = none
  after_block xs (some (ys, rng)) = some (xs ++ ys, rng)

  -- while idx < n, with `left` = n - idx
  unfoldable pub resample : ℕ → ℕ → ℕ → ℕ → Rng → Option (List ℕ × Rng)
  unfolding block_at
  resample zero n block left rng = if eqb left 0 then some ([], rng) else none
  resample (suc fuel) n block left rng =
      let len = min block left in
      let drawn = draw n rng in
      let rest =
        after_block (block_at n drawn.0 len) (resample fuel n block (left - len) drawn.1) in
      if eqb left 0 then some ([], rng) else rest

  -- The loop over range(n_bootstrap): a measure of each sample of indices.
  unfoldable pub bootstrap {ℓ} : {A : Type ℓ} → (List ℕ → A) → ℕ → ℕ → ℕ → Rng → Option (List A)
  unfolding resample
  bootstrap measure n block zero rng = some []
  bootstrap measure n block (suc rounds) rng = do
    sample ← resample n n block n rng
    rest ← bootstrap measure n block rounds sample.1
    some (measure sample.0 ∷ rest)

  module _ {F : Type 0} (fl : Floats F) (cube_root : ℕ → ℕ) where
    -- r[indices]
    unfoldable pub rows_at : List F → List ℕ → List F
    rows_at r [] = []
    rows_at r (i ∷ is) = elim (get_elem? r i) [ none ↦ fl.zero_value | some x ↦ x ] ∷ rows_at r is

    -- sample.mean() / sample.std(ddof=1) * sqrt(annualization), or zero
    abbrev pub sharpe_at : F → List F → F
    sharpe_at annualization sample =
        if fl.lt fl.zero_value (fl.std sample)
        then fl.mul (fl.div (fl.mean sample) (fl.std sample)) (fl.sqrt annualization)
        else fl.zero_value

    pub record SharpeInterval : Type 0 where
      pub sharpe : F
      pub ci_low : F
      pub ci_high : F
      -- p_positive: how many of how many samples
      pub positive : ℕ
      pub samples : ℕ

    abbrev pub interval_of : (List F → F → F) → F → F → List F → List F → SharpeInterval
    interval_of quantile annualization confidence r sharpes =
        let alpha = fl.div (fl.sub (fl.ratio 1 1) confidence) (fl.ratio 2 1) in
        record {
          sharpe = sharpe_at annualization r;
          ci_low = quantile sharpes alpha;
          ci_high = quantile sharpes (fl.sub (fl.ratio 1 1) alpha);
          positive = length (keep (λ s. fl.lt fl.zero_value s) sharpes);
          samples = length sharpes;
        }

    -- bootstrap_sharpe_ci; one of two samples stands for the 0.5 of short returns
    unfoldable pub bootstrap_sharpe_ci :
        (List F → F → F) → List F → ℕ → F → Option ℕ → F → Rng → Option SharpeInterval
    unfolding bootstrap rows_at
    bootstrap_sharpe_ci quantile returns n_bootstrap confidence block_size annualization rng =
        let r = without_nan fl returns in
        let n = length r in
        if ltb n 10
        then some (record {
          sharpe = fl.zero_value;
          ci_low = fl.zero_value;
          ci_high = fl.zero_value;
          positive = 1;
          samples = 2;
        })
        else do
          sharpes ←
              bootstrap (λ is. sharpe_at annualization (rows_at r is)) n
                (block_of cube_root n block_size) n_bootstrap rng
          some (interval_of quantile annualization confidence r sharpes)

    unfoldable pub greatest_from : F → List F → F
    greatest_from m [] = m
    greatest_from m (x ∷ xs) = greatest_from (larger fl m x) xs

    -- x.max() of one value or more
    abbrev pub greatest_of : List F → F
    greatest_of [] = fl.zero_value
    greatest_of (x ∷ xs) = greatest_from x xs

    -- x.argmax(): the first of the greatest
    unfoldable pub best_index_from : ℕ → F → ℕ → List F → ℕ
    best_index_from best m i [] = best
    best_index_from best m i (x ∷ xs) =
        if fl.lt m x then best_index_from i x (suc i) xs else best_index_from best m (suc i) xs

    abbrev pub best_index : List F → ℕ
    best_index [] = 0
    best_index (x ∷ xs) = best_index_from 0 x 1 xs

    pub record RealityCheck : Type 0 where
      -- p_value: how many of how many samples reach the statistic that was observed
      pub reaching : ℕ
      pub n_bootstrap : ℕ
      pub best_strategy_idx : ℕ
      pub best_mean_excess : F
      pub verdict : String

    -- S - B, column by column
    unfoldable pub less_benchmark : List F → List F → List F
    less_benchmark [] ys = []
    less_benchmark (x ∷ xs) [] = []
    less_benchmark (x ∷ xs) (y ∷ ys) = fl.sub x y ∷ less_benchmark xs ys

    abbrev pub centered : List F → List F
    centered column = map (λ x. fl.sub x (fl.mean column)) column

    abbrev pub statistic : ℕ → List (List F) → F
    statistic t columns = fl.mul (fl.sqrt (fl.ratio t 1)) (greatest_of (map fl.mean columns))

    abbrev pub reality_of : ℕ → List (List F) → List F → RealityCheck
    reality_of t excess values =
        let reaching = length (keep (λ v. fl.le (statistic t excess) v) values) in
        let best = best_index (map fl.mean excess) in
        record {
          reaching = reaching;
          n_bootstrap = length values;
          best_strategy_idx = best;
          best_mean_excess = elim (get_elem? (map fl.mean excess) best) [
            | none ↦ fl.zero_value
            | some m ↦ m
          ];
          verdict =
              if ltb (20 * reaching) (length values) then "significant" else "not_significant";
        }

    -- whites_reality_check of a matrix of `t` rows with a column or more
    unfoldable pub whites_reality_check :
        ℕ → List (List F) → List F → ℕ → Option ℕ → Rng → Except (Option RealityCheck)
    unfolding bootstrap rows_at less_benchmark
    whites_reality_check t columns benchmark n_bootstrap block_size rng =
        if eqb (length benchmark) t
        then (let excess = map (λ c. less_benchmark c benchmark) columns in
            ok (do
              values ←
                  bootstrap (λ is. statistic t (map (λ c. rows_at (centered c) is) excess)) t
                    (block_of cube_root t block_size) n_bootstrap rng
              some (reality_of t excess values)))
        else raise "ValueError"
