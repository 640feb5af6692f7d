-- ===== src/Backtest/Rebuilt.antt =====
-- aqr/tools/core.py: where backtest_one measures, it has rebuilt the hypothesis.
use pigeon_trade.Common.{ℕ, String, none, some, List, ◌≡◌, subst, arith, inl, inr}
use pigeon_trade.Common.Except.{ok, Except-cases}
use pigeon_trade.Floats.{Floats}
use pigeon_trade.Research.{Hypothesis}
use pigeon_trade.Hypotheses.{make_spec}
use pigeon_trade.Backtest.{BacktestMeasures, measured, backtest_one, backtest_spec}

pub backtest_one-measured :
    {F : Type 0} (fl : Floats F) (show : String → ℕ → String) (fn : Hypothesis → List F → List F)
    (h : Hypothesis) (prices : List F) (n splits test_splits : ℕ) (embargo : F)
    (m : BacktestMeasures F)
    → backtest_one fl show fn h prices n splits test_splits embargo ≡ ok (measured m)
    → (spec : Hypothesis) × (make_spec show h.family h.ticker h.params ≡ ok (some spec))
      × (backtest_spec fl show fn spec prices n splits test_splits embargo ≡ ok m)
unfolding backtest_one
backtest_one-measured fl show fn h prices n splits test_splits embargo m e =
    elim (Except-cases (make_spec show h.family h.ticker h.params)) [
      | inr (x, k) ↦ absurd (ground (arith, e))
      | inl (none, k) ↦ absurd (ground (arith, e))
      | inl (some spec, k) ↦
          elim (Except-cases (backtest_spec fl show fn spec prices n splits test_splits embargo)) [
            | inr (x, b) ↦ absurd (ground (arith, e))
            | inl (m0, b) ↦ (
              spec,
              k,
              (let same : m0 ≡ m = ground (arith, e, b) in
                  subst
                    (λ r. backtest_spec fl show fn spec prices n splits test_splits embargo ≡ ok r)
                    same b),
            )
          ]
    ]
