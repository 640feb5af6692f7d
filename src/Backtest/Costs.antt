-- ===== src/Backtest/Costs.antt =====
-- aqr/executor/nautilus.py: the execution without costs, and that of an installed NautilusTrader.
use pigeon_trade.Common.{
  ℕ, suc, ◌≤◌, String, false, List, [], ◌∷◌, map, length, length-map, All, ◌≡◌, refl, ap, ◌∙◌,
  arith, Bool-cases, inl, inr,
}
use pigeon_trade.Common.Except.{ok, Except-cases}
use pigeon_trade.Floats.{Floats}
use pigeon_trade.Research.{Hypothesis}
use pigeon_trade.Backtest.{
  BacktestMeasures, measured, held, strategy_returns, net_returns, cost_rate, backtest_one,
  backtest_spec, execute_with_slippage, execute_spec, too_short, cpcv_sharpe,
}
use pigeon_trade.Backtest.Rebuilt.{backtest_one-measured}
use pigeon_trade.Backtest.Series.{
  dropna, values_of, index_of, zip_with, pct_change, turnover, differences_from,
}

-- What the code relies on of 0.0. The product of a float and 0.0 is NaN for NaN and an infinity only,
-- and 0.0 for every other float that is not negative.
pub record HasZero {F : Type 0} (fl : Floats F) : Type 0 where
  pub sub-zero : (x : F) → fl.sub x fl.zero_value ≡ x
  pub abs-zero :
      (x : F)
      → fl.is_nan (fl.mul (fl.abs x) fl.zero_value) ≡ false
      → fl.mul (fl.abs x) fl.zero_value ≡ fl.zero_value
  -- 0.0 + 0 * 0.0001 == 0.0
  pub free_literal : fl.add fl.zero_value (fl.mul (fl.ratio 0 1) (fl.ratio 1 10000)) ≡ fl.zero_value
  pub zero_not_below : fl.lt fl.zero_value fl.zero_value ≡ false

-- A change of position that is neither NaN nor infinite: its product with 0.0 is a number.
abbrev pub IsFinite : {F : Type 0} → Floats F → F → Type 0
IsFinite fl x = fl.is_nan (fl.mul x fl.zero_value) ≡ false

-- The two results agree on all but the measures of the cross-validation.
pub record SameTrading {F : Type 0} (m n : BacktestMeasures F) : Type 0 where
  pub same_hypothesis : m.hypothesis ≡ n.hypothesis
  pub same_sharpe : m.sharpe ≡ n.sharpe
  pub same_dsr : m.dsr ≡ n.dsr
  pub same_verdict : m.dsr_verdict ≡ n.dsr_verdict
  pub same_drawdown : m.max_drawdown ≡ n.max_drawdown
  pub same_trades : m.n_trades ≡ n.n_trades
  pub same_returns : m.daily_returns ≡ n.daily_returns

module _ {F : Type 0} (fl : Floats F) where
  free-zip :
      ((x : F) → fl.sub x fl.zero_value ≡ x)
      → (xs ts : List F) (rate : F) → rate ≡ fl.zero_value
      → All (λ t. fl.mul t fl.zero_value ≡ fl.zero_value) ts
      → length xs ≤ length ts
      → zip_with fl.sub xs (map (λ t. fl.mul t rate) ts) ≡ xs
  unfolding zip_with
  free-zip z [] ts rate e a h = refl
  free-zip z (x ∷ xs) [] rate e a h = absurd (omega arith)
  free-zip z (x ∷ xs) (t ∷ ts) rate e a h =
      let rest = free-zip z xs ts rate e a.1 (omega arith) in
      let first : fl.sub x (fl.mul t rate) ≡ x =
        ap (λ r. fl.sub x (fl.mul t r)) e ∙ ap (fl.sub x) a.0 ∙ z x in
      rw first (ap (λ r. x ∷ r) rest)

  All-abs :
      HasZero fl
      → (xs : List F) → All (IsFinite fl) (map fl.abs xs)
      → All (λ t. fl.mul t fl.zero_value ≡ fl.zero_value) (map fl.abs xs)
  All-abs z [] a = tt
  All-abs z (x ∷ xs) a = (z.abs-zero x a.0, All-abs z xs a.1)

  All-turnover :
      HasZero fl
      → (xs : List F) → All (IsFinite fl) (turnover fl xs)
      → All (λ t. fl.mul t fl.zero_value ≡ fl.zero_value) (turnover fl xs)
  unfolding turnover
  All-turnover z [] a = tt
  All-turnover z (x ∷ xs) a = (z.abs-zero x a.0, All-abs z (differences_from fl x xs) a.1)

  length-zip_with : (f : F → F → F) (xs ys : List F) → length (zip_with f xs ys) ≤ length xs
  unfolding zip_with
  length-zip_with f [] ys = omega arith
  length-zip_with f (x ∷ xs) [] = omega arith
  length-zip_with f (x ∷ xs) (y ∷ ys) = omega (arith, length-zip_with f xs ys)

  length-differences_from : (b : F) (xs : List F) → length (differences_from fl b xs) ≡ length xs
  unfolding differences_from
  length-differences_from b [] = refl
  length-differences_from b (x ∷ xs) = ap suc (length-differences_from x xs)

  length-turnover : (xs : List F) → length (turnover fl xs) ≡ length xs
  unfolding turnover
  length-turnover [] = refl
  length-turnover (x ∷ xs) =
      ap suc (length-map fl.abs (differences_from fl x xs) ∙ length-differences_from x xs)

  free_rate : HasZero fl → cost_rate fl fl.zero_value 0 ≡ fl.zero_value
  free_rate z = z.free_literal

  module _ (show : String → ℕ → String) (fn : Hypothesis → List F → List F) where
    length-strategy :
        (spec : Hypothesis) (prices : List F)
        → length (strategy_returns fl show fn spec prices)
          ≤ length (turnover fl (held fl show fn spec prices))
    unfolding strategy_returns
    length-strategy spec prices =
        let positions = held fl show fn spec prices in
        omega (
          arith,
          length-zip_with fl.mul positions (pct_change fl prices),
          length-turnover positions,
        )

  module _ (show : String → ℕ → String) (fn : Hypothesis → List F → List F) (z : HasZero fl) where
    net_returns-free :
        (spec : Hypothesis) (prices : List F)
        → All (IsFinite fl) (turnover fl (held fl show fn spec prices))
        → net_returns fl show fn fl.zero_value 0 spec prices
          ≡ strategy_returns fl show fn spec prices
    unfolding net_returns
    net_returns-free spec prices a =
        let positions = held fl show fn spec prices in
        free-zip z.sub-zero (strategy_returns fl show fn spec prices) (turnover fl positions)
          (cost_rate fl fl.zero_value 0) (free_rate z) (All-turnover z positions a)
          (length-strategy show fn spec prices)

    execute_spec-free :
        (spec : Hypothesis) (prices : List F) (n splits test_splits : ℕ) (embargo : F)
        (m : BacktestMeasures F)
        → All (IsFinite fl) (turnover fl (held fl show fn spec prices))
        → fl.is_zero (fl.std (pct_change fl prices)) ≡ false
        → backtest_spec fl show fn spec prices n splits test_splits embargo ≡ ok m
        → SameTrading m (execute_spec fl show fn false spec prices fl.zero_value 0 n)
    execute_spec-free spec prices n splits test_splits embargo m a moving e =
        let kept = dropna fl (strategy_returns fl show fn spec prices) in
        let returns = values_of kept in
        let cpcv = cpcv_sharpe fl (index_of kept) returns splits test_splits embargo in
        rw moving (
          rw (net_returns-free spec prices a) (elim (Bool-cases (too_short fl returns)) [
            | inl short ↦ ground (arith)
            | inr long ↦ elim (Except-cases cpcv) [
              | inl (c, k) ↦ ground (arith)
              | inr (x, k) ↦ ground (arith)
            ]
          ]))

    -- Where a float less 0.0 is itself, and the product of a magnitude and 0.0 is 0.0 or NaN, and where
    -- the changes of the positions on the prices are neither NaN nor infinite: what backtest_one
    -- measures of 126 prices or more that do not stand still, the execution without commission and
    -- slippage measures too, where NautilusTrader is not installed: all but the cross-validation,
    -- which it leaves out.
    pub execute_with_slippage-free :
        (h : Hypothesis) (prices : List F) (n splits test_splits : ℕ) (embargo : F)
        (m : BacktestMeasures F)
        → ((spec : Hypothesis) → All (IsFinite fl) (turnover fl (held fl show fn spec prices)))
        → 126 ≤ length prices
        → fl.is_zero (fl.std (pct_change fl prices)) ≡ false
        → backtest_one fl show fn h prices n splits test_splits embargo ≡ ok (measured m)
        → (m' : BacktestMeasures F) × (execute_with_slippage fl show fn false h prices fl.zero_value
              0 n
            ≡ ok m')
          × SameTrading m m'
    unfolding execute_with_slippage
    execute_with_slippage-free h prices n splits test_splits embargo m finite long moving e =
        let (spec, k, b) =
          backtest_one-measured fl show fn h prices n splits test_splits embargo m e in
        (
          execute_spec fl show fn false spec prices fl.zero_value 0 n,
          rw k (ground (arith, z.zero_not_below)),
          execute_spec-free spec prices n splits test_splits embargo m (finite spec) moving b,
        )
