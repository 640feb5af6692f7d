-- ===== src/Credentials/Examples.antt =====
-- The theorems on the credentials (aqr/llm_env.py) at an environment with two keys.
use pigeon_trade.Common.{String, Bool, true, some, [], ◌∷◌, ◌==◌, ◌≡◌}
use pigeon_trade.Common.Dict.{Dict, lookup, insert}
use pigeon_trade.Common.Except.{Except, raise}
use pigeon_trade.Credentials.{Settings, llm_env_override}
use pigeon_trade.Credentials.Override.{llm_env_override-restores}

abbrev server : Dict String
server =
    ("OPENAI_API_KEY", "server")
    ∷ ("DEEPSEEK_API_KEY", "other")
    ∷ ("AQR_LLM_MODEL", "deepseek-chat")
    ∷ []

-- The substrings that a Claude model's name has.
abbrev in_claude : String → Bool
in_claude s = s == "claude"

-- A call that changes a key and another variable, and raises.
abbrev meddling : Dict String → Dict String × Except Bool
meddling env = (insert "OPENAI_API_KEY" "changed" (insert "HOME" "/tmp" env), raise "RuntimeError")

llm_env_override-restores_example :
    lookup "OPENAI_API_KEY" (llm_env_override in_claude "mine" meddling server).0 ≡ some "server"
unfolding lookup
llm_env_override-restores_example =
    llm_env_override-restores in_claude "mine" "OPENAI_API_KEY" meddling server

abbrev found : Settings
found = record {
  session_id = "rest";
  llm_model = "deepseek-chat";
  llm_api_key = "other";
  openai_api_key = "server";
  invest_token = "";
  invest_sandbox = true;
}
