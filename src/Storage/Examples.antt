-- ===== src/Storage/Examples.antt =====
-- The search over two hypotheses, of which one is near.
use pigeon_trade.Common.{ℕ, String, false, none, some, List, [], ◌∷◌}
use pigeon_trade.Common.Except.{Except, ok}
use pigeon_trade.Common.Sort.{sort_desc, sort_desc-IsDescending, sort_desc-perm}
use pigeon_trade.Research.{ℤ, pos}
use pigeon_trade.Registry.{Tables, HypothesisRow, Ordering}

abbrev stable : Ordering
stable = record {
  desc = sort_desc;
  desc-IsDescending = sort_desc-IsDescending;
  desc-perm = sort_desc-perm;
}

abbrev row : String → ℕ → HypothesisRow
row id n = record {
  id = id;
  run_id = "r1";
  family = "momentum";
  ticker = "SBER";
  config_json = [];
  dsr = none;
  cpcv = none;
  sharpe = none;
  max_drawdown = none;
  is_valid = false;
  embedding = some (pos n ∷ []);
  created_at = n;
}

abbrev two_rows : Tables
two_rows = record {
  sessions = [];
  messages = [];
  runs = [];
  hypotheses = row "a" 100000 ∷ row "b" 900000 ∷ [];
  settings = [];
}

abbrev first_entry : List ℤ → List ℤ → ℕ
first_entry (pos n ∷ v) w = n
first_entry v w = 0

abbrev embed : String → Except (List ℤ)
embed text = ok (pos 1 ∷ [])
