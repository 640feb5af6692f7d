-- ===== src/Backtest/Trials.antt =====
-- aqr/executor/nautilus.py, aqr/tools/core.py: the number of trials, and the verdicts.
use pigeon_trade.Common.{ℕ, String, true, false, none, some, List, ◌≡◌, arith, inl, inr}
use pigeon_trade.Common.Except.{Except-cases}
use pigeon_trade.Floats.{Floats}
use pigeon_trade.Research.{Hypothesis}
use pigeon_trade.Hypotheses.{make_spec}
use pigeon_trade.Backtest.{execute_with_slippage}

-- With NautilusTrader installed, the number of hypotheses does not count: the result is that of the
-- program's own engine for twenty of them.
pub execute_with_slippage-ignores_trials :
    {F : Type 0} (fl : Floats F) (show : String → ℕ → String) (fn : Hypothesis → List F → List F)
    (h : Hypothesis) (prices : List F) (commission_pct : F) (slippage_ticks n_hypotheses : ℕ)
    → execute_with_slippage fl show fn true h prices commission_pct slippage_ticks n_hypotheses
      ≡ execute_with_slippage fl show fn false h prices commission_pct slippage_ticks 20
unfolding execute_with_slippage
execute_with_slippage-ignores_trials fl show fn h prices commission_pct slippage_ticks
      n_hypotheses =
    elim (Except-cases (make_spec show h.family h.ticker h.params)) [
      | inr (x, k) ↦ rw k
      | inl (none, k) ↦ rw k
      | inl (some spec, k) ↦ rw k (ground (arith))
    ]
