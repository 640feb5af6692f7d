-- ===== src/Backtest/Examples.antt =====
-- The backtest on whole numbers: prices that go up and down, and a position that is always long.
use pigeon_trade.Common.{
  ℕ, zero, suc, ◌+◌, ◌-◌, ◌*◌, ◌/◌, String, false, List, [], ◌∷◌, map, length-map, take, keep, max,
  ltb, leb, eqb, All, ◌≡◌, ◌⊎◌, refl, sym, arith,
}
use pigeon_trade.Common.Except.{ok}
use pigeon_trade.Floats.{Floats}
use pigeon_trade.Research.{Hypothesis}
use pigeon_trade.Backtest.{
  BacktestMeasures, measured, held, net_returns, backtest_one, execute_with_slippage,
}
use pigeon_trade.Hypotheses.{make_spec, kept_params}
use pigeon_trade.Common.Dict.{lookup}
use pigeon_trade.Common.Options.{traverse}
use pigeon_trade.Validation.Combinations.{combinations, range_from}
use pigeon_trade.Validation.Cpcv.{
  make, split, fold_at, folds, fill, overlaps, purge, window_end, purge_window, purge_windows,
  test_mask, split_one, test_paths,
}
use pigeon_trade.Validation.Sharpe.{deflated_sharpe_ratio}
use pigeon_trade.Backtest.{cpcv_sharpe, test_sharpes, verdict_for}
use pigeon_trade.Backtest.Series.{
  dropna, zip_with, shift, pct_change, indexed, changes, cum_prod, drawdowns, lowest, turnover,
}
use pigeon_trade.Backtest.Series.Prefix.{take-map}
use pigeon_trade.Backtest.Causal.{IsCausal, net_returns-prefix}
use pigeon_trade.Backtest.Costs.{HasZero, IsFinite, SameTrading, execute_with_slippage-free}
use pigeon_trade.Backtest.Verdicts.{IsUnmeasured, IsGraded, backtest_one-IsGraded}

abbrev greatest : List ℕ → ℕ
greatest [] = 0
greatest (x ∷ xs) = max x (greatest xs)

abbrev whole : Floats ℕ
whole = record {
  zero_value = 0;
  ratio = λ a b. a / b;
  add = λ a b. a + b;
  sub = λ a b. a - b;
  mul = λ a b. a * b;
  div = λ a b. a / b;
  abs = λ a. a;
  sqrt = λ a. a;
  lt = ltb;
  le = leb;
  is_zero = λ a. eqb a 0;
  is_nan = λ a. false;
  round3 = λ a. a;
  part_of = λ n a. n * a;
  ceil = λ a. a;
  mean = greatest;
  std = greatest;
  std_population = greatest;
  variance = greatest;
  skew = λ xs. 0;
  kurtosis = λ xs. 0;
  cdf = λ a. a;
  ppf = λ a. a;
  e = 3;
}

whole-HasZero : HasZero whole
whole-HasZero = record {
  sub-zero = λ x. omega arith;
  abs-zero = λ x h. omega arith;
  free_literal = refl;
  zero_not_below = refl;
}

whole-IsFinite : (xs : List ℕ) → All (IsFinite whole) xs
whole-IsFinite [] = tt
whole-IsFinite (x ∷ xs) = (refl, whole-IsFinite xs)

abbrev show : String → ℕ → String
show key value = key

abbrev always_long : Hypothesis → List ℕ → List ℕ
always_long spec prices = map (λ p. 1) prices

always_long-IsCausal : (spec : Hypothesis) → IsCausal (always_long spec)
always_long-IsCausal spec =
    ((λ prices. length-map (λ p. 1) prices), (λ k prices. sym (take-map (λ p. 1) k prices)))

abbrev waves : ℕ → List ℕ
waves zero = []
waves (suc n) = 1 ∷ 2 ∷ waves n

abbrev spec : Hypothesis
spec = record {
  name = "SMAfast/slow";
  family = "momentum";
  ticker = "SBER";
  params = ("fast", 5) ∷ ("slow", 50) ∷ [];
}

abbrev measured_waves : BacktestMeasures ℕ
measured_waves = record {
  hypothesis = spec;
  sharpe = 252;
  dsr = 0;
  dsr_verdict = "borderline";
  cpcv_mean_sharpe = 252;
  cpcv_std_sharpe = 252;
  max_drawdown = 0;
  n_trades = 1;
  daily_returns = net_returns whole show always_long 0 0 spec (waves 64);
}

run_waves :
    backtest_one whole show always_long spec (waves 64) 20 3 1 0 ≡ ok (measured measured_waves)
unfolding backtest_one net_returns make_spec lookup kept_params dropna keep zip_with shift
    pct_change cpcv_sharpe make split fold_at folds fill overlaps purge window_end purge_window
    purge_windows test_mask split_one test_paths traverse combinations range_from
    deflated_sharpe_ratio test_sharpes verdict_for indexed changes cum_prod drawdowns lowest
    turnover
run_waves = refl

waves_move : whole.is_zero (whole.std (pct_change whole (waves 64))) ≡ false
unfolding pct_change
waves_move = refl

net_returns-prefix_example :
    (take 3 (held whole show always_long spec (5 ∷ 6 ∷ 7 ∷ []))
      ≡ take 3 (held whole show always_long spec (5 ∷ 6 ∷ 9 ∷ 2 ∷ [])))
    × (take 2 (net_returns whole show always_long 1 2 spec (5 ∷ 6 ∷ 7 ∷ []))
        ≡ take 2 (net_returns whole show always_long 1 2 spec (5 ∷ 6 ∷ 9 ∷ 2 ∷ [])))
net_returns-prefix_example =
    net_returns-prefix whole 1 2 show always_long spec 2 (5 ∷ 6 ∷ 7 ∷ []) (5 ∷ 6 ∷ 9 ∷ 2 ∷ [])
      (always_long-IsCausal spec) refl (omega arith) (omega arith)

execute_with_slippage-free_example :
    (m : BacktestMeasures ℕ) × (execute_with_slippage whole show always_long false spec
        (waves 64)
        0
        0
        20
      ≡ ok m)
    × SameTrading measured_waves m
execute_with_slippage-free_example =
    execute_with_slippage-free whole show always_long whole-HasZero spec (waves 64) 20 3 1 0
      measured_waves
      (λ spec. whole-IsFinite (turnover whole (held whole show always_long spec (waves 64))))
      (omega arith) waves_move run_waves

backtest_one-IsGraded_example : IsUnmeasured whole measured_waves ⊎ IsGraded whole 20 measured_waves
backtest_one-IsGraded_example =
    backtest_one-IsGraded whole show always_long spec (waves 64) 20 3 1 0 measured_waves run_waves
