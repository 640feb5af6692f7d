-- ===== src/Backtest/Causal.antt =====
-- aqr/tools/core.py, aqr/executor/nautilus.py: what the positions and the returns depend on.
use pigeon_trade.Common.{
  ℕ, suc, ◌<◌, String, List, map, length, take, take-take, ◌≡◌, ap, ◌∙◌, sym, arith,
}
use pigeon_trade.Floats.{Floats}
use pigeon_trade.Research.{Hypothesis}
use pigeon_trade.Backtest.{held, strategy_returns, net_returns, cost_rate}
use pigeon_trade.Backtest.Series.{shift, filled, fill_nan, zip_with, pct_change, turnover}
use pigeon_trade.Backtest.Series.Prefix.{
  take-map, take-zip_with, shift-prefix, take-pct_change, take-turnover,
}

-- The function has a position for each price, and none looks ahead.
abbrev pub IsCausal : {F : Type 0} → (List F → List F) → Type 0
IsCausal {F} f =
    ((prices : List F) → length (f prices) ≡ length prices)
    × ((k : ℕ) (prices : List F) → f (take k prices) ≡ take k (f prices))

module _ {F : Type 0} (fl : Floats F) (commission_pct : F) (slippage_ticks : ℕ) where
  -- The net returns from the positions that are held and the prices.
  abbrev net_of : List F → List F → List F
  net_of positions prices =
      zip_with fl.sub (zip_with fl.mul positions (pct_change fl prices))
        (map (λ t. fl.mul t (cost_rate fl commission_pct slippage_ticks)) (turnover fl positions))

  take-net_of :
      (k : ℕ) (positions prices : List F)
      → take k (net_of positions prices) ≡ net_of (take k positions) (take k prices)
  take-net_of k positions prices = simp (take-zip_with, take-map, take-pct_change, take-turnover)

  -- With a function that does not look ahead, and two series of prices that agree on the first k
  -- prices and go on: the positions held over the first k + 1 bars agree, and so do the returns of
  -- the first k bars, costs included. The position of bar k is fixed before its price is known.
  pub net_returns-prefix :
      (show : String → ℕ → String) (fn : Hypothesis → List F → List F) (spec : Hypothesis) (k : ℕ)
      (p q : List F)
      → IsCausal (fn spec)
      → take k p ≡ take k q
      → k < length p
      → k < length q
      → (take (suc k) (held fl show fn spec p) ≡ take (suc k) (held fl show fn spec q))
        × (take k (net_returns fl show fn commission_pct slippage_ticks spec p)
            ≡ take k (net_returns fl show fn commission_pct slippage_ticks spec q))
  unfolding net_returns strategy_returns
  net_returns-prefix show fn spec k p q c e hp hq =
      let fixed : take k (fn spec p) ≡ take k (fn spec q) =
        sym (c.1 k p) ∙ ap (fn spec) e ∙ c.1 k q in
      let shifted =
        shift-prefix fl.zero_value k (fn spec p) (fn spec q) fixed (omega (arith, c.0 p))
          (omega (arith, c.0 q)) in
      let same : take (suc k) (held fl show fn spec p) ≡ take (suc k) (held fl show fn spec q) =
        take-map (filled fl) (suc k) (shift fl.zero_value (fn spec p))
        ∙ ap (fill_nan fl) shifted
        ∙ sym (take-map (filled fl) (suc k) (shift fl.zero_value (fn spec q))) in
      let before : take k (held fl show fn spec p) ≡ take k (held fl show fn spec q) =
        sym (take-take k (suc k) (held fl show fn spec p) (omega arith))
        ∙ ap (take k) same
        ∙ take-take k (suc k) (held fl show fn spec q) (omega arith) in
      (
        same,
        take-net_of k (held fl show fn spec p) p
            ∙ ap (λ h. net_of h (take k p)) before
            ∙ ap (net_of (take k (held fl show fn spec q))) e
            ∙ sym (take-net_of k (held fl show fn spec q) q),
      )
