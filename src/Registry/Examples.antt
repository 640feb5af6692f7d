-- ===== src/Registry/Examples.antt =====
-- The theorems on the registry at small tables; the stable sort is an ordering.
use mathlib.Core.List.{Perm}
use pigeon_trade.Common.{
  ℕ, String, true, false, Option, none, some, List, [], ◌∷◌, take, ◌≡◌, refl, keep,
}
use pigeon_trade.Common.Dict.{insert}
use pigeon_trade.Common.Except.{ok}
use pigeon_trade.Common.Sort.{IsDescending, sort_desc, sort_desc-IsDescending, sort_desc-perm}
use pigeon_trade.Research.{ℤ, pos}
use pigeon_trade.Credentials.{Settings}
use pigeon_trade.Registry.{
  Tables, HypothesisRow, ChatMessage, Ordering, list_chat_history, get_or_create_session,
}
use pigeon_trade.Registry.Settings.{
  Cipher, IsSound, save_session_settings, credentials, credentials-save_session_settings,
}
use pigeon_trade.Registry.Search.{
  gap, at_threshold, nearest, with_distance, search_similar, search_similar-nearest,
}

abbrev stable : Ordering
stable = record {
  desc = sort_desc;
  desc-IsDescending = sort_desc-IsDescending;
  desc-perm = sort_desc-perm;
}

abbrev message : ℕ → String → ChatMessage
message t session = record {
  id = t;
  session_id = session;
  role = "user";
  content = "hi";
  created_at = t;
}

abbrev row : String → Option ℕ → HypothesisRow
row run dsr = record {
  id = "h";
  run_id = run;
  family = "momentum";
  ticker = "SBER";
  config_json = [];
  dsr = dsr;
  cpcv = none;
  sharpe = some (pos 1200);
  max_drawdown = none;
  is_valid = false;
  embedding = some (pos 1 ∷ []);
  created_at = 3;
}

abbrev sample_tables : Tables
sample_tables = record {
  sessions = "alice" ∷ "bob" ∷ [];
  messages = message 1 "alice" ∷ message 2 "bob" ∷ message 3 "alice" ∷ [];
  runs =
      (
        "r1",
        record {
          goal = "g";
          session_id = "alice";
          status = "done";
          summary_metrics = none;
          created_at = 1;
        },
      )
      ∷ [];
  hypotheses = row "r1" none ∷ row "r1" (some 900) ∷ row "r2" (some 950) ∷ [];
  settings = [];
}

history_run : list_chat_history stable "alice" 1 sample_tables ≡ message 3 "alice" ∷ []
unfolding list_chat_history sort_desc keep
history_run = refl

-- A cipher that writes the text itself.
abbrev plain_text : Cipher
plain_text = record { encrypt_str = ok; decrypt_str = ok }

plain_text-IsSound : IsSound plain_text
plain_text-IsSound plain token e = cc

abbrev saved : Settings
saved = record {
  session_id = "alice";
  llm_model = "m";
  llm_api_key = "k";
  openai_api_key = "";
  invest_token = "t";
  invest_sandbox = true;
}

abbrev with_saved : Tables
with_saved = record sample_tables {
  settings =
      (
        "alice",
        record {
          llm_model = "m";
          llm_api_key_encrypted = "k";
          openai_api_key_encrypted = "";
          invest_token_encrypted = "t";
          invest_sandbox = true;
          updated_at = 9;
        },
      )
      ∷ [];
}

save_run : save_session_settings plain_text 9 saved sample_tables ≡ ok with_saved
unfolding save_session_settings get_or_create_session insert
save_run = refl

credentials-save_session_settings_example :
    credentials plain_text "alice" with_saved ≡ ok (some saved)
credentials-save_session_settings_example =
    credentials-save_session_settings plain_text plain_text-IsSound 9 saved sample_tables with_saved
      "alice" save_run

abbrev far : List ℤ → List ℤ → ℕ
far v w = 100000

search_similar-nearest_example :
    (search_similar stable far (pos 1 ∷ []) 850000 2 sample_tables
      ≡ take 2 (at_threshold 850000 (nearest stable far (pos 1 ∷ []) sample_tables)))
    × IsDescending gap (nearest stable far (pos 1 ∷ []) sample_tables)
    × Perm
        (nearest stable far (pos 1 ∷ []) sample_tables)
        (with_distance stable far (pos 1 ∷ []) sample_tables.hypotheses)
search_similar-nearest_example =
    search_similar-nearest stable far (pos 1 ∷ []) 850000 2 sample_tables
