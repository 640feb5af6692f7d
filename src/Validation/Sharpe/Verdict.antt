-- ===== src/Validation/Sharpe/Verdict.antt =====
-- aqr/validation/deflated_sharpe.py: the verdict.
use pigeon_trade.Common.{
  ℕ, ◌≤◌, not, true, none, List, [], ◌∷◌, length, keep, ◌≡◌, refl, ap, arith, if◌then◌else◌, All,
}
use pigeon_trade.Floats.{Floats}
use pigeon_trade.Validation.Sharpe.{without_nan, deflated_sharpe_ratio}

module _ {F : Type 0} (fl : Floats F) where
  pub without_nan-All :
      (xs : List F) → All (λ x. not (fl.is_nan x) ≡ true) xs → without_nan fl xs ≡ xs
  unfolding keep
  without_nan-All [] h = refl
  without_nan-All (x ∷ xs) h = rw h.0 (ap (λ t. x ∷ t) (without_nan-All xs h.1))

  -- With three returns or more, none of them a NaN, the verdict is that of the ratio.
  pub verdict-deflated_sharpe_ratio :
      (r : List F) (n : ℕ) (annualization : F)
      → All (λ x. not (fl.is_nan x) ≡ true) r
      → 3 ≤ length r
      → (deflated_sharpe_ratio fl r n none annualization).verdict ≡ (
          if fl.lt
            (fl.ratio 95 100)
            (deflated_sharpe_ratio fl r n none annualization).deflated_sharpe
          then "significant"
          else "not_significant")
  unfolding deflated_sharpe_ratio
  verdict-deflated_sharpe_ratio r n annualization h k = rw (without_nan-All r h) (ground arith)
