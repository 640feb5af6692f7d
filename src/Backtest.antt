-- ===== src/Backtest.antt =====
-- backtest_one and _cpcv_sharpe of aqr/tools/core.py, and execute_with_slippage of
-- aqr/executor/nautilus.py: from the prices to the positions, their returns and the measures. The
-- function of a hypothesis, `spec.fn`, is a parameter, `fn`; Hypotheses/Signals has such functions.
pub mod Series
pub mod Rebuilt
pub mod Verdicts
pub mod Causal
pub mod Costs
pub mod Trials
mod Examples
use pigeon_trade.Common.{
  ℕ, Bool, not, String, Option, none, some, List, [], ◌∷◌, map, length, get_elem?, keep, ltb, ◌||◌,
  ◌==◌, if◌then◌else◌,
}
use pigeon_trade.Common.Dict.{Dict}
use pigeon_trade.Common.Except.{Except, ok, raise, ◌>>=◌}
use pigeon_trade.Floats.{Floats, unit_value}
use pigeon_trade.Research.{Hypothesis}
use pigeon_trade.Hypotheses.{make_spec}
use pigeon_trade.Validation.Cpcv.{make, split, Split}
use pigeon_trade.Validation.Sharpe.{Deflated, deflated_sharpe_ratio}
use pigeon_trade.Backtest.Series.{
  shift, fill_nan, pct_change, zip_with, turnover, changes, cum_prod, drawdowns, lowest, dropna,
  values_of, index_of,
}

-- The dict of a result, and BacktestResult.
pub record BacktestMeasures (F : Type 0) : Type 0 where
  pub hypothesis : Hypothesis
  pub sharpe : F
  pub dsr : F
  pub dsr_verdict : String
  pub cpcv_mean_sharpe : F
  pub cpcv_std_sharpe : F
  pub max_drawdown : F
  pub n_trades : ℕ
  pub daily_returns : List F

-- The dict with the key "error", or a result.
pub data Tested (F : Type 0) : Type 0 where
  error : String → Tested F
  measured : BacktestMeasures F → Tested F

module _ {F : Type 0} (fl : Floats F) where
  abbrev pub insufficient : Hypothesis → BacktestMeasures F
  insufficient spec = record {
    hypothesis = spec;
    sharpe = fl.zero_value;
    dsr = fl.zero_value;
    dsr_verdict = "insufficient";
    cpcv_mean_sharpe = fl.zero_value;
    cpcv_std_sharpe = fl.zero_value;
    max_drawdown = fl.zero_value;
    n_trades = 0;
    daily_returns = [];
  }

  -- float(s.mean() / s.std() * np.sqrt(252))
  abbrev pub annual_sharpe : List F → F
  annual_sharpe s = fl.mul (fl.div (fl.mean s) (fl.std s)) (fl.sqrt (fl.ratio 252 1))

  -- (equity / equity.cummax() - 1.0).min()
  abbrev pub max_drawdown_of : List F → F
  max_drawdown_of returns =
      lowest fl (drawdowns fl (cum_prod fl (map (λ r. fl.add (unit_value fl) r) returns)))

  unfoldable pub verdict_for : Deflated F → String
  verdict_for d =
      if d.verdict == "significant"
      then "significant"
      else if d.verdict == "insufficient_data"
      then "insufficient"
      else if fl.le (fl.ratio 80 100) d.deflated_sharpe
      then "borderline"
      else "not_significant"

  -- How often the position changes from one bar to the next.
  abbrev pub trades_of : List F → ℕ
  trades_of held = length (keep (λ x. fl.lt fl.zero_value (fl.abs x)) (changes fl held))

  -- ret.iloc[test_idx]
  unfoldable pub at_indices : List F → List ℕ → List F
  at_indices ret [] = []
  at_indices ret (i ∷ is) = elim (get_elem? ret i) [
    | none ↦ at_indices ret is
    | some r ↦ r ∷ at_indices ret is
  ]

  -- The Sharpe ratios of the test sets, of those that are long enough and not constant.
  unfoldable pub test_sharpes : List F → List Split → List F
  unfolding at_indices
  test_sharpes ret [] = []
  test_sharpes ret ((train, test) ∷ splits) =
      let rest = test_sharpes ret splits in
      let s = at_indices ret test in
      if ltb (length test) 20 || fl.is_zero (fl.std s) then rest else annual_sharpe s ∷ rest

  abbrev pub mean_and_std : List F → F × F
  mean_and_std [] = (fl.zero_value, fl.zero_value)
  mean_and_std (s ∷ ss) = (fl.mean (s ∷ ss), fl.std_population (s ∷ ss))

  -- _cpcv_sharpe of returns at the bars of an index
  unfoldable pub cpcv_sharpe : List ℕ → List F → ℕ → ℕ → F → Except (F × F)
  unfolding test_sharpes
  cpcv_sharpe index ret n_splits n_test_splits embargo_pct = elim (make n_splits n_test_splits) [
    | none ↦ raise "ValueError"
    | some cv ↦ elim (split cv index none (fl.part_of (length index) embargo_pct)) [
      | none ↦ raise "IndexError"
      | some splits ↦ ok (mean_and_std (test_sharpes ret splits))
    ]
  ]

  -- The measures of `returns`, of which the mean and the deviation of the CPCV are given.
  abbrev pub measures : Hypothesis → List F → List F → ℕ → F × F → BacktestMeasures F
  measures spec held returns n_hypotheses cpcv =
      let d = deflated_sharpe_ratio fl returns n_hypotheses none (fl.ratio 252 1) in
      record {
        hypothesis = spec;
        sharpe = fl.round3 (annual_sharpe returns);
        dsr = fl.round3 d.deflated_sharpe;
        dsr_verdict = verdict_for d;
        cpcv_mean_sharpe = fl.round3 cpcv.0;
        cpcv_std_sharpe = fl.round3 cpcv.1;
        max_drawdown = fl.round3 (max_drawdown_of returns);
        n_trades = trades_of held;
        daily_returns = returns;
      }

  abbrev pub too_short : List F → Bool
  too_short returns = ltb (length returns) 30 || fl.is_zero (fl.std returns)

  -- commission_pct + slippage_ticks * SLIPPAGE_TICK_PCT
  abbrev pub cost_rate : F → ℕ → F
  cost_rate commission_pct slippage_ticks =
      fl.add commission_pct (fl.mul (fl.ratio slippage_ticks 1) (fl.ratio 1 10000))

  module _ (show : String → ℕ → String) (fn : Hypothesis → List F → List F) where
    -- pos.shift(1).fillna(0.0)
    abbrev pub held : Hypothesis → List F → List F
    held spec prices = fill_nan fl (shift fl.zero_value (fn spec prices))

    -- strat_ret of backtest_one
    unfoldable pub strategy_returns : Hypothesis → List F → List F
    strategy_returns spec prices = zip_with fl.mul (held spec prices) (pct_change fl prices)

    -- strat_ret of execute_with_slippage
    unfoldable pub net_returns : F → ℕ → Hypothesis → List F → List F
    unfolding strategy_returns
    net_returns commission_pct slippage_ticks spec prices =
        zip_with fl.sub (strategy_returns spec prices) (
          map (λ t. fl.mul t (cost_rate commission_pct slippage_ticks))
            (turnover fl (held spec prices)))

    -- The body of backtest_one behind the rebuilding of the hypothesis.
    abbrev pub backtest_spec : Hypothesis → List F → ℕ → ℕ → ℕ → F → Except (BacktestMeasures F)
    backtest_spec spec prices n_hypotheses cpcv_splits cpcv_test_splits embargo_pct =
        let kept = dropna fl (strategy_returns spec prices) in
        let returns = values_of kept in
        if too_short returns then ok (insufficient spec) else do
          cpcv ← cpcv_sharpe (index_of kept) returns cpcv_splits cpcv_test_splits embargo_pct
          ok (measures spec (held spec prices) returns n_hypotheses cpcv)

    unfoldable pub backtest_one : Hypothesis → List F → ℕ → ℕ → ℕ → F → Except (Tested F)
    unfolding strategy_returns
    backtest_one h prices n_hypotheses cpcv_splits cpcv_test_splits embargo_pct = do
      made ← make_spec show h.family h.ticker h.params
      elim made [
        | none ↦ ok (error "Неизвестное семейство")
        | some spec ↦ (do
          m ← backtest_spec spec prices n_hypotheses cpcv_splits cpcv_test_splits embargo_pct
          ok (measured m))
      ]

    -- _compute_metrics
    abbrev pub compute_metrics : Hypothesis → List F → List F → ℕ → BacktestMeasures F
    compute_metrics spec prices returns n_hypotheses =
        if too_short returns
        then insufficient spec
        else measures spec (held spec prices) returns n_hypotheses (fl.zero_value, fl.zero_value)

    -- The body of execute_with_slippage behind its checks; `installed` says whether nautilus_trader is.
    abbrev pub execute_spec : Bool → Hypothesis → List F → F → ℕ → ℕ → BacktestMeasures F
    execute_spec installed spec prices commission_pct slippage_ticks n_hypotheses =
        let returns =
          values_of (dropna fl (net_returns commission_pct slippage_ticks spec prices)) in
        if fl.is_zero (fl.std (pct_change fl prices))
        then compute_metrics spec prices [] 20
        else if installed
        then compute_metrics spec prices returns 20
        else compute_metrics spec prices returns n_hypotheses

    unfoldable pub execute_with_slippage :
        Bool → Hypothesis → List F → F → ℕ → ℕ → Except (BacktestMeasures F)
    unfolding net_returns
    execute_with_slippage installed h prices commission_pct slippage_ticks n_hypotheses = do
      made ← make_spec show h.family h.ticker h.params
      elim made [
        | none ↦ raise "ValueError"
        | some spec ↦
            if ltb (length prices) 126
            then raise "ValueError"
            else if fl.lt commission_pct fl.zero_value
            then raise "ValueError"
            else ok (execute_spec installed spec prices commission_pct slippage_ticks n_hypotheses)
      ]
