-- ===== src/Llm/Planner.antt =====
-- aqr/pipeline/planner.py and plan_research of aqr/tools/core.py. The dataclass tests no types, so a
-- field of the plan is what the model gave. json.loads is `loads`, `none` where it raises
-- JSONDecodeError; `joined` is ",".join, and `text` str of a value.
pub mod Complete
use pigeon_trade.Common.{
  ℕ, String, Bool, Option, none, some, List, [], ◌∷◌, map, take, ◌==◌, if◌then◌else◌,
}
use pigeon_trade.Common.Except.{Except, ok, raise, ◌>>=◌}
use pigeon_trade.Research.{ℤ}
use pigeon_trade.Values.{PyValue, int, str, list, nil, cons, PyFields}
use pigeon_trade.Credentials.{Settings}
use pigeon_trade.Registry.{Tables, HypothesisRow, Ordering}
use pigeon_trade.Registry.Search.{search_similar}
use pigeon_trade.Storage.{Similar, similar_of}
use pigeon_trade.Llm.{Prompt, plan, Choices, LlmCall, ask_model}
use pigeon_trade.Llm.Fence.{Letters, strip_markdown_fence, is_empty}
use pigeon_trade.Llm.Embedder.{Embedder, Items, make_embedder, hypothesis_to_text, embed_openai}
use pigeon_trade.Llm.Answer.{value_or, given_else, fields_of, int_of}

-- ResearchPlan, less the validation, which stays at its default
pub record PlanValues : Type 0 where
  pub goal : String
  pub tickers : PyValue
  pub timeframe : PyValue
  pub start_date : PyValue
  pub end_date : PyValue
  pub hypothesis_families : PyValue
  pub n_hypotheses : ℕ
  pub rationale : PyValue

-- What plan_research returns; the two keys that are missing without similar runs are empty then, and
-- the warning names the family and the ticker of three.
pub record PlanResearch : Type 0 where
  pub plan : PlanValues
  pub similar_runs : List Similar
  pub dedup_warning : List (String × String)

abbrev pub default_tickers : PyValue
default_tickers = list (cons (str "SBER") (cons (str "GAZP") (cons (str "LKOH") nil)))

abbrev pub default_families : PyValue
default_families = list (cons (str "momentum") (cons (str "mean_reversion") nil))

abbrev pub plan_from : String → PyFields → ℕ → PlanValues
plan_from goal vs n = record {
  goal = goal;
  tickers = given_else vs "tickers" default_tickers;
  timeframe = value_or vs "timeframe" (str "D1");
  start_date = given_else vs "start_date" (str "2023-01-01");
  end_date = given_else vs "end_date" (str "2024-12-31");
  hypothesis_families = given_else vs "hypothesis_families" default_families;
  n_hypotheses = n;
  rationale = value_or vs "rationale" (str "");
}

module _ (is_space : ℕ → Bool) (loads : Letters → Option PyValue) (number : String → Option ℕ) where
  -- _plan_from_dict
  unfoldable pub plan_from_dict : String → PyValue → Except PlanValues
  plan_from_dict goal data_ = do
    vs ← fields_of data_
    n ← int_of number (value_or vs "n_hypotheses" (int 20))
    ok (plan_from goal vs n)

  abbrev plan_of_loaded : String → Option PyValue → Except PlanValues
  plan_of_loaded goal none = raise "RuntimeError"
  plan_of_loaded goal (some data_) = plan_from_dict goal data_

  -- _llm_plan, from the response on
  unfoldable pub plan_of : String → Choices → Except PlanValues
  unfolding plan_from_dict
  plan_of goal [] = raise "RuntimeError"
  plan_of goal (none ∷ choices) = raise "RuntimeError"
  plan_of goal (some content ∷ choices) =
      if is_empty content
      then raise "RuntimeError"
      else plan_of_loaded goal (loads (strip_markdown_fence is_space content))

  module _ (litellm : String → Prompt → LlmCall Choices) (has : String → String → Bool)
      (session : Option Settings) where
    -- ResearchPlanner(model).plan(goal)
    unfoldable pub llm_plan : Option String → String → LlmCall PlanValues
    unfolding ask_model plan_of
    llm_plan model goal env = ask_model litellm has session model (plan goal) (plan_of goal) env

    module _ (joined : PyValue → Except Letters) (text : PyValue → Letters)
        (openai : String → Option String → String → Letters → Except (List (List ℤ)))
        (order : Ordering) (distance : List ℤ → List ℤ → ℕ) (rounded : ℕ → ℤ) where
      -- s or "unknown"
      abbrev pub or_unknown : Letters → Letters
      or_unknown s = if is_empty s then 117 ∷ 110 ∷ 107 ∷ 110 ∷ 111 ∷ 119 ∷ 110 ∷ [] else s

      -- {"start": plan.start_date, "end": plan.end_date}
      abbrev pub period_of : PlanValues → Items
      period_of p =
          (115 ∷ 116 ∷ 97 ∷ 114 ∷ 116 ∷ [], text p.start_date)
          ∷ (101 ∷ 110 ∷ 100 ∷ [], text p.end_date)
          ∷ []

      -- The hypotheses at a cosine of 0.92 or more to the plan's text.
      abbrev pub similar_to : Tables → Embedder → PlanValues → Except (List (HypothesisRow × ℕ))
      similar_to db embedder p = do
        families ← joined p.hypothesis_families
        tickers ← joined p.tickers
        e ←
            embed_openai openai embedder
              (hypothesis_to_text (or_unknown families) (or_unknown tickers) (period_of p))
        ok (search_similar order distance e 920000 5 db)

      -- The dict of the plan, with its keys on similar runs.
      abbrev pub with_similar : PlanValues → List (HypothesisRow × ℕ) → PlanResearch
      with_similar p rows = record {
        plan = p;
        similar_runs = map (similar_of order distance rounded) rows;
        dedup_warning = map (λ r. (r.0.family, r.0.ticker)) (take 3 rows);
      }

      -- plan_research
      unfoldable pub plan_research : String → Tables → LlmCall PlanResearch
      unfolding llm_plan
      plan_research goal db env =
          let (after, result) = llm_plan none goal env in
          let embedder = make_embedder session after "nomic-embed-text" none none in
          (after, result >>= λ p. similar_to db embedder p >>= λ rows. ok (with_similar p rows))
