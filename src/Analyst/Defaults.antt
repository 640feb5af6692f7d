-- ===== src/Analyst/Defaults.antt =====
-- aqr/agents/analyst.py: the default parameters, handed to make_one_with_params by backtest_one.
use pigeon_trade.Common.{ℕ, String, Option, some, All, ◌==◌, if◌then◌else◌, ◌≡◌, refl}
use pigeon_trade.Common.Dict.{lookup}
use pigeon_trade.Common.Except.{Except, ok, raise}
use pigeon_trade.Research.{ℤ, Hypothesis}
use pigeon_trade.Hypotheses.{make_spec, kept_params}
use pigeon_trade.Hypotheses.Budget.{IsKnown, momentum, mean_reversion, breakout, volatility}
use pigeon_trade.Analyst.{default_specs}

-- What becomes of a hypothesis with default parameters.
abbrev pub Fate : String → Except (Option Hypothesis) → Type 0
Fate family made =
    if family == "momentum"
    then ((s : Hypothesis) × (made ≡ ok (some s)))
    else (made ≡ raise "KeyError")

-- Of the known families only momentum has default parameters of which a hypothesis can be built: for
-- the three others a parameter is missing and a KeyError is raised.
pub default_specs-Fate :
    (show : String → ℕ → String) (code : ℤ → ℕ) (ticker family : String)
    → IsKnown family
    → All (λ spec. Fate family (make_spec show family ticker spec)) (default_specs code family)
unfolding default_specs make_spec lookup kept_params
default_specs-Fate show code ticker family momentum = ((_, refl), tt)
default_specs-Fate show code ticker family mean_reversion = (refl, tt)
default_specs-Fate show code ticker family breakout = (refl, tt)
default_specs-Fate show code ticker family volatility = (refl, tt)
