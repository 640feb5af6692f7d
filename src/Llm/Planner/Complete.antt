-- ===== src/Llm/Planner/Complete.antt =====
-- aqr/pipeline/planner.py: the plan that a language model's answer becomes.
use pigeon_trade.Common.{
  ℕ, String, Bool, true, false, Option, none, some, ◌∷◌, ◌++◌, eqb, All, ◌≡◌, refl, arith,
}
use pigeon_trade.Common.Dict.{Dict}
use pigeon_trade.Common.Except.{ok}
use pigeon_trade.Values.{PyValue, PyFields, int, str, dict}
use pigeon_trade.Credentials.{Settings, resolve_llm_credentials, overridden, llm_env_override}
use pigeon_trade.Llm.{Prompt, plan, Choices, LlmCall, ask_model, called_as, model_or}
use pigeon_trade.Llm.Fence.{Letters}
use pigeon_trade.Llm.Fence.RoundTrip.{IsBlank, fenced, is_empty-append, strip_markdown_fence-fenced}
use pigeon_trade.Llm.Answer.{is_truthy, get_value, value_or, int_of, else_default}
use pigeon_trade.Llm.Planner.{
  PlanValues, plan_from, plan_from_dict, plan_of, llm_plan, default_tickers, default_families,
}

-- A plan for a goal, with tickers, families and dates.
abbrev pub IsComplete : String → PlanValues → Type 0
IsComplete goal p =
    (p.goal ≡ goal)
    × (is_truthy p.tickers ≡ true)
    × (is_truthy p.hypothesis_families ≡ true)
    × (is_truthy p.start_date ≡ true)
    × (is_truthy p.end_date ≡ true)

truthy-else_default :
    (o : Option PyValue) (d : PyValue) → is_truthy d ≡ true → is_truthy (else_default o d) ≡ true
truthy-else_default none d h = h
truthy-else_default (some v) d h = ground (arith, h)

plan_from-IsComplete :
    (goal : String) (vs : PyFields) (n : ℕ) → IsComplete goal (plan_from goal vs n)
plan_from-IsComplete goal vs n = (
  refl,
  truthy-else_default (get_value vs "tickers") default_tickers refl,
  truthy-else_default (get_value vs "hypothesis_families") default_families refl,
  truthy-else_default (get_value vs "start_date") (str "2023-01-01") refl,
  truthy-else_default (get_value vs "end_date") (str "2024-12-31") refl,
)

module _ (is_space : ℕ → Bool) (loads : Letters → Option PyValue) (number : String → Option ℕ)
    (visible : is_space 96 ≡ false) where
  plan_of-fenced :
      (goal : String) (before tag body after : Letters) (choices : Choices) (vs : PyFields) (n : ℕ)
      → IsBlank is_space before
      → IsBlank is_space after
      → All (λ c. eqb c 10 ≡ false) tag
      → loads body ≡ some (dict vs)
      → int_of number (value_or vs "n_hypotheses" (int 20)) ≡ ok n
      → plan_of is_space loads number goal (some (before ++ (fenced tag body ++ after)) ∷ choices)
        ≡ ok (plan_from goal vs n)
  unfolding plan_of plan_from_dict
  plan_of-fenced goal before tag body after choices vs n b a t l i =
      rw
        (
          is_empty-append before (fenced tag body ++ after) refl,
          strip_markdown_fence-fenced is_space visible before tag body after b a t,
          l,
          i,
        )
        refl

  module _ (litellm : String → Prompt → LlmCall Choices) (has : String → String → Bool)
      (session : Option Settings) where
    -- With credentials, and a model that answers with a JSON object in a fence, with a tag of one
    -- line, blanks around it all and a number of hypotheses, if it has one, that is a number; and where
    -- a backtick is no blank: the planner returns a plan for the goal, with this number and with
    -- tickers, families and dates, whatever else the object has or lacks.
    pub llm_plan-IsComplete :
        (model : Option String) (goal : String) (env left : Dict String) (creds : Settings)
        (before tag body after : Letters) (choices : Choices) (vs : PyFields) (n : ℕ)
        → resolve_llm_credentials session (model_or model env) env ≡ ok creds
        → litellm creds.llm_model
            (plan goal)
            (overridden (has creds.llm_model) creds.llm_api_key env)
          ≡ (left, ok (some (before ++ (fenced tag body ++ after)) ∷ choices))
        → IsBlank is_space before
        → IsBlank is_space after
        → All (λ c. eqb c 10 ≡ false) tag
        → loads body ≡ some (dict vs)
        → int_of number (value_or vs "n_hypotheses" (int 20)) ≡ ok n
        → (p : PlanValues) × ((llm_plan is_space loads number litellm has session model goal env).1
            ≡ ok p)
          × IsComplete goal p
          × (p.n_hypotheses ≡ n)
    unfolding llm_plan ask_model called_as llm_env_override
    llm_plan-IsComplete model goal env left creds before tag body after choices vs n c r b a t l i =
        (
          plan_from goal vs n,
          rw (c, r) (plan_of-fenced goal before tag body after choices vs n b a t l i),
          plan_from-IsComplete goal vs n,
          refl,
        )
