-- ===== src/Credentials/Resolution.antt =====
-- The credentials of a call outside a session (resolve_llm_credentials).
use pigeon_trade.Common.{String, Option, none, ◌≡◌, ◌≢◌, arith, eq_iff}
use pigeon_trade.Common.Dict.{Dict}
use pigeon_trade.Common.Except.{ok}
use pigeon_trade.Credentials.{
  Settings, chosen_model, first_key, api_key_env_keys, from_env, resolve_llm_credentials,
}

-- Credentials that the environment yields have a model and a key; without one of them the call
-- raises.
pub resolve_llm_credentials_complete :
    (model : Option String) (env : Dict String) (creds : Settings)
    → resolve_llm_credentials none model env ≡ ok creds
    → (creds.llm_model ≢ "") × (creds.llm_api_key ≢ "")
unfolding resolve_llm_credentials from_env
resolve_llm_credentials_complete model env creds h =
    ground (arith, eq_iff (chosen_model model env) "", eq_iff (first_key env api_key_env_keys) "")
