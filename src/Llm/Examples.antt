-- ===== src/Llm/Examples.antt =====
-- The theorems on the calls of a language model (aqr/pipeline, aqr/llm_env.py) at small answers.
use pigeon_trade.Common.{
  ℕ, String, Bool, true, ◌||◌, Option, none, some, List, [], ◌∷◌, ◌++◌, keep, map, length, eqb,
  if◌then◌else◌, ◌≡◌, refl, ◌==◌,
}
use pigeon_trade.Common.Dict.{Dict, lookup}
use pigeon_trade.Common.Except.{ok}
use pigeon_trade.Research.{Hypothesis, BacktestResult}
use pigeon_trade.Research.Sample.{tested}
use pigeon_trade.Values.{PyValue, PyFields, int, str, list, dict, nil, cons, end, field}
use pigeon_trade.Credentials.{Settings, resolve_llm_credentials, overridden}
use pigeon_trade.Llm.Answer.{get_value}
use pigeon_trade.Llm.{Prompt, Choices, LlmCall}
use pigeon_trade.Llm.Fence.{lstrip, rstrip, Letters, same, strip_markdown_fence}
use pigeon_trade.Llm.Fence.RoundTrip.{fenced, strip_markdown_fence-fenced}
use pigeon_trade.Llm.Embedder.{hypothesis_to_text}
use pigeon_trade.Llm.Planner.{PlanValues, llm_plan}
use pigeon_trade.Llm.Planner.Complete.{IsComplete, llm_plan-IsComplete}
use pigeon_trade.Llm.Reports.{review_insights}
use pigeon_trade.Llm.Reports.Bounds.{IsBounded, review_insights-IsBounded}
use pigeon_trade.Llm.Insights.{extract_insights, dsr_of}
use pigeon_trade.Llm.Insights.Families.{ratios_of, counted, in_family, extract_insights-families}

abbrev blank : ℕ → Bool
blank c = eqb c 32 || eqb c 10

-- "json", "{}" and an object with a line break
abbrev json : Letters
json = 106 ∷ 115 ∷ 111 ∷ 110 ∷ []

abbrev object : Letters
object = 123 ∷ 10 ∷ 125 ∷ []

abbrev answer : Letters
answer = (10 ∷ []) ++ (fenced json object ++ (32 ∷ 10 ∷ []))

strip_markdown_fence-fenced_example : strip_markdown_fence blank answer ≡ object
strip_markdown_fence-fenced_example =
    strip_markdown_fence-fenced blank refl (10 ∷ []) json object (32 ∷ 10 ∷ []) (refl, tt)
      (refl, (refl, tt)) (refl, (refl, (refl, (refl, tt))))

abbrev twelve : PyFields
twelve = field "n_hypotheses" (int 12) (field "tickers" (list nil) end)

abbrev loads : PyFields → Letters → Option PyValue
loads vs c = if same c object then some (dict vs) else none

abbrev number : String → Option ℕ
number s = none

abbrev model_of : String → Prompt → LlmCall Choices
model_of name m env = (env, ok (some answer ∷ []))

abbrev has : String → String → Bool
has name s = s == "deepseek"

abbrev mine : Settings
mine = record {
  session_id = "s";
  llm_model = "deepseek-chat";
  llm_api_key = "key";
  openai_api_key = "";
  invest_token = "";
  invest_sandbox = true;
}

abbrev server : Dict String
server = ("OPENAI_API_KEY", "server") ∷ []

llm_plan-IsComplete_example :
    (p : PlanValues) × ((llm_plan blank
        (loads twelve)
        number
        model_of
        has
        (some mine)
        none
        "momentum"
        server).1
      ≡ ok p)
    × IsComplete "momentum" p
    × (p.n_hypotheses ≡ 12)
unfolding same resolve_llm_credentials get_value
llm_plan-IsComplete_example =
    llm_plan-IsComplete blank (loads twelve) number refl model_of has (some mine) none "momentum"
      server (overridden (has mine.llm_model) mine.llm_api_key server) mine (10 ∷ []) json object
      (32 ∷ 10 ∷ []) [] twelve 12 refl refl (refl, tt) (refl, (refl, tt))
      (refl, (refl, (refl, (refl, tt)))) refl refl

abbrev remarks : PyFields
remarks = field "observations" (list (cons (str "a") (cons (str "") (cons (str "b") nil)))) end

abbrev text : PyValue → Letters
text v = 32 ∷ 97 ∷ []

abbrev letters : String → List PyValue
letters s = []

abbrev first : Hypothesis
first = record { name = "mom_5"; family = "momentum"; ticker = "SBER"; params = [] }

abbrev second : Hypothesis
second = record { name = "brk_9"; family = "breakout"; ticker = "GAZP"; params = [] }

abbrev results : List BacktestResult
results = tested first ∷ tested second ∷ tested first ∷ []

review_insights-IsBounded_example :
    IsBounded results
      (review_insights blank
        (loads remarks)
        text
        letters
        model_of
        has
        (some mine)
        (λ xs. xs)
        "goal"
        results
        []
        100
        "robust"
        server).1
    × (lookup "OPENAI_API_KEY"
          (review_insights blank
            (loads remarks)
            text
            letters
            model_of
            has
            (some mine)
            (λ xs. xs)
            "goal"
            results
            []
            100
            "robust"
            server).0
        ≡ lookup "OPENAI_API_KEY" server)
review_insights-IsBounded_example =
    review_insights-IsBounded model_of has (some mine) blank (loads remarks) text letters (λ xs. xs)
      "goal" results [] 100 "robust" server "OPENAI_API_KEY" refl

extract_insights-families_example :
    (ratios_of "momentum" (extract_insights results 20 3 310 "marginal")
      ≡ map dsr_of (keep (in_family "momentum") results))
    × (counted (extract_insights results 20 3 310 "marginal") ≡ length results)
extract_insights-families_example = extract_insights-families "momentum" results 20 3 310 "marginal"

-- "a on b: e=1, s=2", from a dict with the other order
text_of_hypothesis :
    hypothesis_to_text (97 ∷ []) (98 ∷ []) ((115 ∷ [], 50 ∷ []) ∷ (101 ∷ [], 49 ∷ []) ∷ [])
    ≡ 97 ∷ 32 ∷ 111 ∷ 110 ∷ 32 ∷ 98 ∷ 58 ∷ 32 ∷ 101 ∷ 61 ∷ 49 ∷ 44 ∷ 32 ∷ 115 ∷ 61 ∷ 50 ∷ []
unfolding hypothesis_to_text lstrip rstrip
text_of_hypothesis = refl

-- Without parameters the colon goes.
text_without_parameters :
    hypothesis_to_text (97 ∷ []) (98 ∷ []) [] ≡ 97 ∷ 32 ∷ 111 ∷ 110 ∷ 32 ∷ 98 ∷ []
unfolding hypothesis_to_text lstrip rstrip
text_without_parameters = refl
