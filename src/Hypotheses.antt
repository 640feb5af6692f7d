-- ===== src/Hypotheses.antt =====
-- aqr/pipeline/hypotheses.py: the generator of hypotheses. Parameters are numbers: a threshold of
-- mean_reversion counts tenths, one of volatility thousandths. numpy's generator is a parameter: a
-- draw among `size` values yields an index and the generator's next state. `show` is the text that
-- an f-string writes for the value under a key.
pub mod Budget
pub mod Signals
mod Examples
use Prim.Native.String.{◌++◌ as text_append}
use pigeon_trade.Common.{
  ℕ, zero, suc, ◌+◌, ◌*◌, ◌%◌, String, Bool, true, false, Option, none, some, List, [], ◌∷◌, ◌++◌,
  map, ◌==◌, if◌then◌else◌, eqb, leb, length, get_elem?,
}
use pigeon_trade.Common.Dict.{Dict, lookup}
use pigeon_trade.Common.Except.{Except, ok, raise, ◌>>=◌}
use pigeon_trade.Research.{Hypothesis}

-- params[key]
abbrev pub param : String → Dict ℕ → Except ℕ
param key params = elim (lookup key params) [ none ↦ raise "KeyError" | some v ↦ ok v ]

-- combos: (ticker, family) pairs, ticker by ticker
unfoldable pub combos : List String → List String → List (String × String)
combos [] families = []
combos (t ∷ ts) families = map (λ f. (t, f)) families ++ combos ts families

-- {key: params[key], ...}
unfoldable pub kept_params : List String → Dict ℕ → Except (Dict ℕ)
kept_params [] params = ok []
kept_params (key ∷ keys) params = do
  v ← param key params
  rest ← kept_params keys params
  ok ((key, v) ∷ rest)

module _ (show : String → ℕ → String) where
  abbrev two_params : String → String → String → String → Dict ℕ → Except String
  two_params before first between second params = do
    a ← param first params
    b ← param second params
    ok (text_append before (text_append (show first a) (text_append between (show second b))))

  -- _name_for
  unfoldable pub name_for : String → Dict ℕ → Except String
  name_for family params =
      if family == "momentum"
      then two_params "SMA" "fast" "/" "slow" params
      else if family == "mean_reversion"
      then two_params "MR-z" "threshold" "/" "lookback" params
      else if family == "breakout"
      then (param "lookback" params >>= λ lb. ok (text_append "Donchian-" (show "lookback" lb)))
      else if family == "volatility"
      then two_params "VolMom-" "lookback" "/" "vol_threshold" params
      else ok "?"

  -- The spec of a family that keeps these keys, in this order.
  abbrev pub spec_with : String → String → List String → Dict ℕ → Except (Option Hypothesis)
  spec_with family ticker keys params = do
    name ← name_for family params
    kept ← kept_params keys params
    ok (some (record { name = name; family = family; ticker = ticker; params = kept }))

  -- _make_spec; `none` for another family. The signal is Signals.
  unfoldable pub make_spec : String → String → Dict ℕ → Except (Option Hypothesis)
  unfolding name_for
  make_spec family ticker params =
      if family == "momentum"
      then spec_with "momentum" ticker ("fast" ∷ "slow" ∷ []) params
      else if family == "mean_reversion"
      then spec_with "mean_reversion" ticker ("lookback" ∷ "threshold" ∷ []) params
      else if family == "breakout"
      then spec_with "breakout" ticker ("lookback" ∷ []) params
      else if family == "volatility"
      then spec_with "volatility" ticker ("lookback" ∷ "vol_threshold" ∷ []) params
      else ok none

module _ {Rng : Type 0} (draw : ℕ → Rng → ℕ × Rng) where
  abbrev nth : List ℕ → ℕ → ℕ
  nth values i = elim (get_elem? values i) [ none ↦ 0 | some v ↦ v ]

  -- int(rng.choice(values)), float(rng.choice(values))
  unfoldable pub choice : List ℕ → Rng → ℕ × Rng
  choice values rng = let (i, rng') = draw (length values) rng in (nth values i, rng')

  abbrev pair_of : String → List ℕ → String → List ℕ → Rng → Option (Dict ℕ) × Rng
  pair_of first firsts second seconds rng =
      let (a, rng') = choice firsts rng in
      let (b, rng'') = choice seconds rng' in (some ((first, a) ∷ (second, b) ∷ []), rng'')

  abbrev slow_of : ℕ → ℕ → ℕ
  slow_of fast slow = if leb slow fast then fast * 4 else slow

  -- _sample_params
  unfoldable pub sample_params : String → Rng → Option (Dict ℕ) × Rng
  unfolding choice
  sample_params family rng =
      if family == "momentum"
      then (let (fast, rng') = choice (5 ∷ 10 ∷ 20 ∷ []) rng in
          let (slow, rng'') = choice (50 ∷ 100 ∷ 200 ∷ []) rng' in
          (some (("fast", fast) ∷ ("slow", slow_of fast slow) ∷ []), rng''))
      else if family == "mean_reversion"
      then pair_of "lookback" (10 ∷ 20 ∷ 40 ∷ []) "threshold" (10 ∷ 15 ∷ 20 ∷ []) rng
      else if family == "breakout"
      then (let (lb, rng') = choice (20 ∷ 55 ∷ 100 ∷ []) rng in
          (some (("lookback", lb) ∷ []), rng'))
      else if family == "volatility"
      then pair_of "lookback" (10 ∷ 20 ∷ []) "vol_threshold" (5 ∷ 10 ∷ 15 ∷ []) rng
      else (none, rng)

module _ (show : String → ℕ → String) {Rng : Type 0} (draw : ℕ → Rng → ℕ × Rng) where
  abbrev sampled : String → String → Option (Dict ℕ) × Rng → Except (Option Hypothesis × Rng)
  sampled family ticker (none, rng) = ok (none, rng)
  sampled family ticker (some params, rng) = do
    spec ← make_spec show family ticker params
    ok (spec, rng)

  -- _make_one
  unfoldable pub make_one : String → String → Rng → Except (Option Hypothesis × Rng)
  unfolding sample_params make_spec
  make_one family ticker rng = sampled family ticker (sample_params draw family rng)

  abbrev appended : Option Hypothesis → List Hypothesis → List Hypothesis
  appended none specs = specs
  appended (some spec) specs = spec ∷ specs

  abbrev pub combo_at : List (String × String) → ℕ → String × String
  combo_at cs i = elim (get_elem? cs (i % length cs)) [ none ↦ ("", "") | some c ↦ c ]

  -- The loop over `range(n)` from `i` on, with the rounds that are left.
  unfoldable pub rounds : List (String × String) → ℕ → ℕ → Rng → Except (List Hypothesis)
  unfolding make_one
  rounds cs i zero rng = ok []
  rounds cs i (suc left) rng = do
    made ← make_one (combo_at cs i).1 (combo_at cs i).0 rng
    rest ← rounds cs (suc i) left made.1
    ok (appended made.0 rest)

  abbrev pub generated : List (String × String) → ℕ → Rng → Except (List Hypothesis)
  generated [] n rng = ok []
  generated (c ∷ cs) n rng = rounds (c ∷ cs) 0 n rng

  -- generate_hypotheses; `rng` is default_rng(seed)
  unfoldable pub generate_hypotheses :
      List String → List String → ℕ → Rng → Except (List Hypothesis)
  unfolding combos rounds
  generate_hypotheses tickers families n rng = generated (combos tickers families) n rng
