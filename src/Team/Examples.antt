-- ===== src/Team/Examples.antt =====
-- The theorems on aqr/agents at tools that answer and at a ticker with 126 bars.
use pigeon_trade.Common.{ℕ, zero, suc, String, List, [], ◌∷◌}
use pigeon_trade.Common.Except.{Except, ok}
use pigeon_trade.Research.{ℤ, pos, negsuc, Tools}
use pigeon_trade.Research.Sample.{sample_tools}

abbrev repeated : ℕ → List ℕ
repeated zero = []
repeated (suc n) = 100 ∷ repeated n

abbrev team_tools : Tools
team_tools = record (sample_tools (ok "The strategy holds.")) {
  load_prices = λ tickers start finish interval. ok (("SBER", repeated 126) ∷ []);
}

-- A screener that finds one pair of averages.
abbrev one_pair : String → String → String → Except (List (ℕ × ℕ))
one_pair ticker start finish = ok ((5, 50) ∷ [])

abbrev code : ℤ → ℕ
code (pos n) = n
code (negsuc n) = suc n
