-- ===== src/Credentials.antt =====
-- aqr/llm_env.py: where the credentials of an LLM call come from, and the environment variables that
-- hold them during the call. The environment is a dict; a call is a function of it that returns or
-- raises and may leave it changed.
pub mod Override
pub mod Resolution
mod Examples
use pigeon_trade.Common.{
  ℕ, String, Bool, true, false, not, ◌||◌, Option, none, some, List, [], ◌∷◌, ◌==◌, if◌then◌else◌,
}
use pigeon_trade.Common.Dict.{Dict, lookup, insert, remove}
use pigeon_trade.Common.Except.{Except, ok, raise}

-- _LLM_ENV_KEYS
abbrev pub llm_env_keys : List String
llm_env_keys =
    "ANTHROPIC_API_KEY" ∷ "OPENAI_API_KEY" ∷ "GIGACHAT_CREDENTIALS" ∷ "DEEPSEEK_API_KEY"
    ∷ "GEMINI_API_KEY" ∷ []

-- _API_KEY_ENV_KEYS
abbrev pub api_key_env_keys : List String
api_key_env_keys =
    "DEEPSEEK_API_KEY" ∷ "ANTHROPIC_API_KEY" ∷ "OPENAI_API_KEY" ∷ "GIGACHAT_CREDENTIALS" ∷ []

-- _PROVIDER_ENV_MAP
abbrev pub provider_env_map : List (String × String)
provider_env_map =
    ("claude", "ANTHROPIC_API_KEY")
    ∷ ("anthropic", "ANTHROPIC_API_KEY")
    ∷ ("gigachat", "GIGACHAT_CREDENTIALS")
    ∷ ("deepseek", "DEEPSEEK_API_KEY")
    ∷ ("gemini", "GEMINI_API_KEY")
    ∷ []

-- DecryptedSettings, as this module reads it
pub record Settings : Type 0 where
  pub session_id : String
  pub llm_model : String
  pub llm_api_key : String
  pub openai_api_key : String
  pub invest_token : String
  pub invest_sandbox : Bool

-- os.environ.get(k, default)
abbrev pub env_or : Dict String → String → String → String
env_or env k d = elim (lookup k env) [ none ↦ d | some v ↦ v ]

-- The loop that stops at the first key that is set to a text; "" behind the last.
unfoldable pub first_key : Dict String → List String → String
first_key env [] = ""
first_key env (k ∷ ks) =
    let rest = first_key env ks in if env_or env k "" == "" then rest else env_or env k ""

abbrev pub chosen_model : Option String → Dict String → String
chosen_model none env = env_or env "AQR_LLM_MODEL" ""
chosen_model (some m) env = if m == "" then env_or env "AQR_LLM_MODEL" "" else m

-- The part of resolve_llm_credentials for a call outside a session.
unfoldable pub from_env : Option String → Dict String → Except Settings
unfolding first_key
from_env model env =
    if chosen_model model env == "" || first_key env api_key_env_keys == ""
    then raise "RuntimeError"
    else ok (record {
      session_id = "rest";
      llm_model = chosen_model model env;
      llm_api_key = first_key env api_key_env_keys;
      openai_api_key = env_or env "OPENAI_API_KEY" "";
      invest_token = env_or env "INVEST_TOKEN" "";
      invest_sandbox = not (env_or env "INVEST_SANDBOX" "1" == "0");
    })

-- resolve_llm_credentials, for what `current_credentials()` returns
unfoldable pub resolve_llm_credentials :
    Option Settings → Option String → Dict String → Except Settings
unfolding from_env
resolve_llm_credentials (some creds) model env = ok creds
resolve_llm_credentials none model env = from_env model env

-- `substr in model`, of the model's name in lower case, is the argument `contains`.
unfoldable pub env_var_in : (String → Bool) → List (String × String) → String
env_var_in contains [] = "OPENAI_API_KEY"
env_var_in contains ((substr, var) ∷ rest) =
    let later = env_var_in contains rest in if contains substr then var else later

abbrev pub env_var_of : (String → Bool) → String
env_var_of contains = env_var_in contains provider_env_map

-- os.environ.pop(k, None) for each key
unfoldable pub clear_keys : List String → Dict String → Dict String
clear_keys [] env = env
clear_keys (k ∷ ks) env = clear_keys ks (remove k env)

-- The environment at the `yield`.
unfoldable pub overridden : (String → Bool) → String → Dict String → Dict String
unfolding clear_keys env_var_in
overridden contains api_key env = insert (env_var_of contains) api_key (clear_keys llm_env_keys env)

abbrev pub restored : Option String → String → Dict String → Dict String
restored none k env = remove k env
restored (some v) k env = insert k v env

-- The loop of the `finally`, over the keys that were saved.
unfoldable pub restore_keys : List String → Dict String → Dict String → Dict String
restore_keys [] saved env = env
restore_keys (k ∷ ks) saved env = restore_keys ks saved (restored (lookup k saved) k env)

-- `with llm_env_override(creds): body`
unfoldable pub llm_env_override {ℓ} :
    {A : Type ℓ}
    → (String → Bool)
    → String
    → (Dict String → Dict String × Except A)
    → Dict String
    → Dict String × Except A
unfolding overridden restore_keys
llm_env_override contains api_key body env =
    let (after, result) = body (overridden contains api_key env) in
    (restore_keys llm_env_keys env after, result)
