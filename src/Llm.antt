-- ===== src/Llm.antt =====
-- The calls of a language model: aqr/pipeline/planner.py, narrator.py and reviewer.py, and the tools of
-- aqr/tools/core.py that make them. litellm is a parameter, a function of the model's name, the message
-- and the environment; the system prompt goes with the kind of the message. `has` is the substring
-- test on a model's name in lower case. Calls wait for each other on a lock, so that one is on.
pub mod Fence
pub mod Answer
pub mod Embedder
pub mod Planner
pub mod Reports
pub mod Insights
mod Examples
use pigeon_trade.Common.{ℕ, String, Bool, Option, none, some, List, [], ◌∷◌, ◌==◌, if◌then◌else◌}
use pigeon_trade.Common.Dict.{Dict, lookup}
use pigeon_trade.Common.Except.{Except, ok, raise, ◌>>=◌}
use pigeon_trade.Research.{BacktestResult}
use pigeon_trade.Credentials.{Settings, resolve_llm_credentials, llm_env_override}
use pigeon_trade.Llm.Fence.{Letters}

-- What the narrator and the reviewer tell of a PipelineResult and its plan, before the rounding and
-- less the time that it took.
pub record Reported : Type 0 where
  pub goal : String
  pub tickers : List String
  pub families : List String
  pub n_hypotheses : ℕ
  pub start_date : String
  pub end_date : String
  pub timeframe : String
  pub n_tested : ℕ
  pub n_survived : ℕ
  pub pbo : ℕ
  pub pbo_verdict : String
  pub top : List BacktestResult

-- The message of the user; that of a review has the number of bars of each result and the
-- deterministic insights.
pub data Prompt : Type 0 where
  plan : String → Prompt
  report : Reported → Prompt
  review : Reported → List ℕ → List String → Prompt

-- response.choices, each by the content of its message
abbrev pub Choices : Type 0
Choices = List (Option Letters)

-- A call: what it leaves in the environment, and its result.
abbrev pub LlmCall {ℓ} : Type ℓ → Type ℓ
LlmCall A = Dict String → Dict String × Except A

-- model or os.environ.get("AQR_LLM_MODEL"), when the object is made
abbrev pub model_or : Option String → Dict String → Option String
model_or none env = lookup "AQR_LLM_MODEL" env
model_or (some m) env = if m == "" then lookup "AQR_LLM_MODEL" env else some m

module _ (litellm : String → Prompt → LlmCall Choices) (has : String → String → Bool)
    (session : Option Settings) where
  -- The call with the credentials in the environment, and what the reader makes of the choices.
  abbrev pub completed {ℓ} : {A : Type ℓ} → Prompt → (Choices → Except A) → Settings → LlmCall A
  completed m read creds env =
      let (after, choices) =
        llm_env_override (has creds.llm_model) creds.llm_api_key (litellm creds.llm_model m) env in
      (after, choices >>= read)

  unfoldable pub called_as {ℓ} :
      {A : Type ℓ} → Prompt → (Choices → Except A) → Except Settings → LlmCall A
  unfolding llm_env_override
  called_as m read (raise e) env = (env, raise e)
  called_as m read (ok creds) env = completed m read creds env

  -- From the credentials on, as the planner, the narrator and the reviewer have it.
  unfoldable pub ask_model {ℓ} :
      {A : Type ℓ} → Option String → Prompt → (Choices → Except A) → LlmCall A
  unfolding resolve_llm_credentials called_as
  ask_model model m read env =
      called_as m read (resolve_llm_credentials session (model_or model env) env) env
