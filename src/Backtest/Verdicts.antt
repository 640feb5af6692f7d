-- ===== src/Backtest/Verdicts.antt =====
-- aqr/tools/core.py: the measures of backtest_one, by the returns that it keeps.
use pigeon_trade.Common.{
  ℕ, ◌≤◌, String, not, true, false, none, List, [], ◌∷◌, length, ◌≡◌, ◌⊎◌, refl, subst, arith,
  if◌then◌else◌, All, All-keep_self, Bool-cases, inl, inr,
}
use pigeon_trade.Common.Except.{ok, Except-cases}
use pigeon_trade.Floats.{Floats}
use pigeon_trade.Research.{Hypothesis}
use pigeon_trade.Validation.Sharpe.{Deflated, deflated_sharpe_ratio}
use pigeon_trade.Validation.Sharpe.Verdict.{verdict-deflated_sharpe_ratio}
use pigeon_trade.Backtest.{
  BacktestMeasures, measured, backtest_one, backtest_spec, strategy_returns, too_short, cpcv_sharpe,
  measures, held, verdict_for,
}
use pigeon_trade.Backtest.Rebuilt.{backtest_one-measured}
use pigeon_trade.Backtest.Series.{dropna, values_of, index_of, indexed}

module _ {F : Type 0} (fl : Floats F) where
  abbrev pub annual : List F → ℕ → Deflated F
  annual returns n = deflated_sharpe_ratio fl returns n none (fl.ratio 252 1)

  -- By the deflated Sharpe ratio alone.
  abbrev pub grade : F → String
  grade dsr =
      if fl.lt (fl.ratio 95 100) dsr
      then "significant"
      else if fl.le (fl.ratio 80 100) dsr
      then "borderline"
      else "not_significant"

  -- Nothing was measured.
  abbrev pub IsUnmeasured : BacktestMeasures F → Type 0
  IsUnmeasured m =
      (m.dsr_verdict ≡ "insufficient")
      × (m.daily_returns ≡ [])
      × (m.n_trades ≡ 0)
      × (m.sharpe ≡ fl.zero_value)
      × (m.dsr ≡ fl.zero_value)

  -- Thirty returns or more that vary, and the verdict of their ratio.
  abbrev pub IsGraded : ℕ → BacktestMeasures F → Type 0
  IsGraded n m =
      (30 ≤ length m.daily_returns)
      × (fl.is_zero (fl.std m.daily_returns) ≡ false)
      × (m.dsr ≡ fl.round3 (annual m.daily_returns n).deflated_sharpe)
      × (m.dsr_verdict ≡ grade (annual m.daily_returns n).deflated_sharpe)

  All-values_of :
      (ps : List (ℕ × F))
      → All (λ p. not (fl.is_nan p.1) ≡ true) ps
      → All (λ x. not (fl.is_nan x) ≡ true) (values_of ps)
  All-values_of [] h = tt
  All-values_of (p ∷ ps) h = (h.0, All-values_of ps h.1)

  numbers-dropna : (xs : List F) → All (λ x. not (fl.is_nan x) ≡ true) (values_of (dropna fl xs))
  unfolding dropna
  numbers-dropna xs =
      All-values_of (dropna fl xs) (All-keep_self (λ p. not (fl.is_nan p.1)) (indexed 0 xs))

  verdict_for-grade :
      (d : Deflated F)
      → d.verdict
        ≡ (if fl.lt (fl.ratio 95 100) d.deflated_sharpe then "significant" else "not_significant")
      → verdict_for fl d ≡ grade d.deflated_sharpe
  unfolding verdict_for
  verdict_for-grade d e = rw e (elim (Bool-cases (fl.lt (fl.ratio 95 100) d.deflated_sharpe)) [
    | inl t ↦ rw t
    | inr t ↦ rw t
  ])

  backtest_spec-IsGraded :
      (show : String → ℕ → String) (fn : Hypothesis → List F → List F) (spec : Hypothesis)
      (prices : List F) (n splits test_splits : ℕ) (embargo : F) (m : BacktestMeasures F)
      → backtest_spec fl show fn spec prices n splits test_splits embargo ≡ ok m
      → IsUnmeasured m ⊎ IsGraded n m
  backtest_spec-IsGraded show fn spec prices n splits test_splits embargo m e =
      let kept = dropna fl (strategy_returns fl show fn spec prices) in
      let returns = values_of kept in
      let cpcv = cpcv_sharpe fl (index_of kept) returns splits test_splits embargo in
      elim (Bool-cases (too_short fl returns)) [
        | inl short ↦ inl (ground (arith))
        | inr long ↦ elim (Except-cases cpcv) [
          | inr (x, k) ↦ absurd (ground (arith, e))
          | inl (c, k) ↦
              let made = measures fl spec (held fl show fn spec prices) returns n c in
              let same : made ≡ m = ground (arith, e, k) in
              let enough : 30 ≤ length returns = ground (arith, long) in
              inr (
                subst (IsGraded n) same (
                  enough,
                  (ground (arith, long)),
                  refl,
                  verdict_for-grade (annual returns n) (
                      verdict-deflated_sharpe_ratio fl returns n (fl.ratio 252 1)
                        (numbers-dropna (strategy_returns fl show fn spec prices)) (omega arith)),
                ))
        ]
      ]

  -- What backtest_one measures is one of two: nothing, with the verdict insufficient, no trade and a
  -- ratio of zero; or thirty returns or more that vary, of which the deflated Sharpe ratio for the
  -- number of hypotheses gives the verdict: significant above 0.95, else borderline from 0.80 on.
  pub backtest_one-IsGraded :
      (show : String → ℕ → String) (fn : Hypothesis → List F → List F) (h : Hypothesis)
      (prices : List F) (n splits test_splits : ℕ) (embargo : F) (m : BacktestMeasures F)
      → backtest_one fl show fn h prices n splits test_splits embargo ≡ ok (measured m)
      → IsUnmeasured m ⊎ IsGraded n m
  backtest_one-IsGraded show fn h prices n splits test_splits embargo m e =
      let (spec, k, b) =
        backtest_one-measured fl show fn h prices n splits test_splits embargo m e in
      backtest_spec-IsGraded show fn spec prices n splits test_splits embargo m b
