-- ===== src/Hypotheses/Examples.antt =====
-- The theorems on aqr/pipeline/hypotheses.py at two tickers and at a short list of prices.
use pigeon_trade.Common.{ℕ, suc, ◌%◌, String, List, [], ◌∷◌, take, ◌≡◌, refl, arith}
use pigeon_trade.Common.Except.{ok}
use pigeon_trade.Research.{Hypothesis}
use pigeon_trade.Hypotheses.{combos, generate_hypotheses}
use pigeon_trade.Hypotheses.Budget.{
  momentum, breakout, AreSpecsOf, pairs_from, generate_hypotheses-AreSpecsOf,
}
use pigeon_trade.Hypotheses.Signals.{short, flat, long, Signal, signal, signal-take}

abbrev digits : String → ℕ → String
digits key n = "n"

-- A generator that counts its draws.
abbrev counted : ℕ → ℕ → ℕ × ℕ
counted size rng = (rng % size, suc rng)

generate_hypotheses-AreSpecsOf_example :
    (ss : List Hypothesis) × (generate_hypotheses digits counted
        ("SBER" ∷ "GAZP" ∷ [])
        ("momentum" ∷ "breakout" ∷ [])
        5
        42
      ≡ ok ss)
    × AreSpecsOf digits counted
        (pairs_from digits counted
          (combos ("SBER" ∷ "GAZP" ∷ []) ("momentum" ∷ "breakout" ∷ []))
          0
          5)
        ss
generate_hypotheses-AreSpecsOf_example =
    generate_hypotheses-AreSpecsOf digits counted ("SBER" ∷ "GAZP" ∷ [])
      ("momentum" ∷ "breakout" ∷ []) 5 42 (omega arith) (omega arith) (momentum, (breakout, tt))

abbrev bars : List ℕ
bars = 10 ∷ 12 ∷ 11 ∷ 14 ∷ 13 ∷ 9 ∷ []

breakout_run : signal (Signal.breakout 2) bars ≡ flat ∷ flat ∷ flat ∷ long ∷ long ∷ short ∷ []
unfolding signal
breakout_run = refl

reversion_run :
    signal (Signal.mean_reversion 3 10) bars ≡ flat ∷ flat ∷ flat ∷ short ∷ flat ∷ long ∷ []
unfolding signal
reversion_run = refl

sma_run : signal (Signal.sma_crossover 1 2) bars ≡ flat ∷ flat ∷ short ∷ long ∷ short ∷ short ∷ []
unfolding signal
sma_run = refl

signal-take_example :
    signal (Signal.breakout 2) (10 ∷ 12 ∷ 11 ∷ 14 ∷ []) ≡ take 4 (signal (Signal.breakout 2) bars)
signal-take_example = signal-take (Signal.breakout 2) 4 bars
