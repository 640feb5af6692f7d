-- ===== src/Analyst.antt =====
-- aqr/agents/base.py and aqr/agents/analyst.py: the result of an agent, and the analyst of one
-- ticker. The registered tools are the record Tools; the screener is a parameter, and `code` is the
-- number that stands for a value of a strategy's default parameters, where a float counts
-- thousandths.
pub mod Defaults
use pigeon_trade.Common.{
  ℕ, zero, suc, ◌+◌, String, Bool, true, false, Option, none, some, List, [], ◌∷◌, ◌++◌, map, take,
  length, ◌==◌, ltb, eqb, if◌then◌else◌,
}
use pigeon_trade.Common.Dict.{Dict, lookup}
use pigeon_trade.Common.Except.{Except, ok, raise, ◌>>=◌}
use pigeon_trade.Research.{
  ℤ, pos, negsuc, Hypothesis, BacktestResult, Backtest, error, result, Plan, Pbo, Tools,
  is_survivor,
}
use pigeon_trade.Agent.{get_or, top_results, n_survivors}

-- An AgentResult: the data of one that is ok, or the error.
pub data AgentResult {ℓ} (A : Type ℓ) : Type ℓ where
  done : A → AgentResult A
  failed : String → AgentResult A

-- MIN_PRICES
abbrev pub min_prices : ℕ
min_prices = 126

-- What AnalystAgent.analyze returns, less the ticker.
pub record Analysis : Type 0 where
  pub results : List BacktestResult
  pub n_screened : ℕ

module _ (code : ℤ → ℕ) where
  -- _default_specs
  unfoldable pub default_specs : String → List (Dict ℕ)
  default_specs family =
      if family == "momentum"
      then (("fast", code (pos 10)) ∷ ("slow", code (pos 30)) ∷ []) ∷ []
      else if family == "mean_reversion"
      then (("window", code (pos 20))
          ∷ ("entry_z", code (negsuc 1999))
          ∷ ("exit_z", code (pos 500))
          ∷ [])
        ∷ []
      else if family == "breakout"
      then (("window", code (pos 20)) ∷ ("multiplier", code (pos 2000)) ∷ []) ∷ []
      else if family == "volatility"
      then (("window", code (pos 20)) ∷ ("lookback", code (pos 60)) ∷ []) ∷ []
      else [] ∷ []

-- [dict(h.get("params", {})) for h in hyps if h.get("params")]
unfoldable pub params_of : List Hypothesis → List (Dict ℕ)
params_of [] = []
params_of (h ∷ hs) =
    let rest = params_of hs in elim h.params [ [] ↦ rest | p ∷ ps ↦ (p ∷ ps) ∷ rest ]

abbrev or_default : List (Dict ℕ) → List (Dict ℕ) → List (Dict ℕ)
or_default [] specs = specs
or_default (s ∷ ss) specs = s ∷ ss

module _ (tools : Tools) where
  module _ (screen : String → String → String → Except (List (ℕ × ℕ))) (code : ℤ → ℕ) where
    -- The path behind the screener.
    abbrev generated_specs : String → String → Except (List (Dict ℕ))
    generated_specs ticker family = do
      hyps ← tools.generate_hypotheses (ticker ∷ []) (family ∷ []) 5
      ok (or_default (params_of hyps) (default_specs code family))

    abbrev screened : String → String → List (ℕ × ℕ) → Except (List (Dict ℕ))
    screened ticker family [] = generated_specs ticker family
    screened ticker family (s ∷ ss) = ok (map (λ s. ("fast", s.0) ∷ ("slow", s.1) ∷ []) (s ∷ ss))

    -- _screening: any failure is a RuntimeError
    abbrev screening : String → String → String → Except (List (ℕ × ℕ))
    screening ticker start finish = elim (screen ticker start finish) [
      | ok ss ↦ ok ss
      | raise e ↦ raise "RuntimeError"
    ]

    -- _build_specs
    unfoldable pub build_specs : String → String → String → String → Except (List (Dict ℕ))
    unfolding params_of default_specs
    build_specs ticker family start finish =
        if family == "momentum"
        then screening ticker start finish >>= screened ticker family
        else generated_specs ticker family

    abbrev tested : Except Backtest → Except (Option BacktestResult)
    tested (raise e) = raise "RuntimeError"
    tested (ok (error e)) = ok none
    tested (ok (result r)) = ok (some r)

    -- _deep_backtest; its name for the hypothesis is not read
    unfoldable pub deep_backtest :
        String → String → Dict ℕ → List ℕ → Except (Option BacktestResult)
    deep_backtest ticker family params prices = tested (
        tools.backtest_one (record { name = ""; family = family; ticker = ticker; params = params })
          prices 20 6 2 10)

    abbrev with_result : Option BacktestResult → List BacktestResult → List BacktestResult
    with_result none rs = rs
    with_result (some r) rs = r ∷ rs

    -- The loop over the specs of a family.
    unfoldable pub test_specs :
        String → String → List ℕ → List (Dict ℕ) → Except (List BacktestResult)
    unfolding deep_backtest
    test_specs ticker family prices [] = ok []
    test_specs ticker family prices (spec ∷ specs) = do
      r ← deep_backtest ticker family spec prices
      rest ← test_specs ticker family prices specs
      ok (with_result r rest)

    -- The loop over the families.
    unfoldable pub test_families : String → String → String → List ℕ → List String → Except Analysis
    unfolding build_specs test_specs
    test_families ticker start finish prices [] = ok (record { results = []; n_screened = 0 })
    test_families ticker start finish prices (family ∷ families) = do
      specs ← build_specs ticker family start finish
      rs ← test_specs ticker family prices (take 5 specs)
      rest ← test_families ticker start finish prices families
      ok (record { results = rs ++ rest.results; n_screened = length specs + rest.n_screened })

    abbrev analyzed :
        String
        → List String
        → String
        → String
        → Except (Dict (List ℕ))
        → Except (AgentResult Analysis)
    analyzed ticker families start finish (raise e) = ok (failed "load_prices failed")
    analyzed ticker families start finish (ok raw) =
        let prices = get_or (lookup ticker raw) [] in
        if ltb (length prices) min_prices
        then ok (failed "insufficient data")
        else (test_families ticker start finish prices families >>= λ a. ok (done a))

    -- AnalystAgent.analyze
    unfoldable pub analyze :
        String → List String → String → String → String → Except (AgentResult Analysis)
    unfolding test_families
    analyze ticker families start finish timeframe =
        analyzed ticker families start finish
          (tools.load_prices (ticker ∷ []) start finish timeframe)
