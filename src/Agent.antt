-- ===== src/Agent.antt =====
-- aqr/graph/graph.py: the state of the conversational agent and the nodes of its graph. A node
-- returns the state after its update is merged into it; it may raise.
pub mod Router
pub mod Pipeline
mod Examples
use pigeon_trade.Common.{
  ℕ, String, Bool, true, false, not, Option, none, some, List, [], ◌∷◌, ◌++◌, ◌==◌, if◌then◌else◌,
  take, length, keep,
}
use pigeon_trade.Common.Dict.{Dict, lookup}
use pigeon_trade.Common.Except.{Except, ok, raise, ◌>>=◌, or_else}
use pigeon_trade.Common.Sort.{sort_desc}
use pigeon_trade.Research.{
  Hypothesis, BacktestResult, Backtest, error, result, ValidationConfig, Plan, Pbo, Tools,
  is_survivor,
}

pub record ChatMessage : Type 0 where
  pub role : String
  pub content : String

pub record AgentState : Type 0 where
  pub messages : List ChatMessage
  pub session_id : String
  pub goal : String
  pub plan : Option Plan
  pub prices : Option (Dict (List ℕ))
  pub hypotheses : Option (List Hypothesis)
  pub results : Option (List BacktestResult)
  pub pbo : Option Pbo
  pub insights : Option (List String)
  pub narrative : Option String
  pub session_context_prompt : String
  pub step : String
  pub failure : Option String
  pub n_tested : ℕ
  pub n_survived : ℕ

-- d.get(key, default)
abbrev pub get_or {ℓ} : {A : Type ℓ} → Option A → A → A
get_or none d = d
get_or (some a) d = a

-- The use of a value that is None: `None.get(...)`, iteration over None, `len(None)`
abbrev pub need {ℓ} : {A : Type ℓ} → String → Option A → Except A
need e none = raise e
need e (some a) = ok a

unfoldable pub last_message : List ChatMessage → Option ChatMessage
last_message [] = none
last_message (m ∷ []) = some m
last_message (m ∷ n ∷ ms) = last_message (n ∷ ms)

abbrev content_of : Option ChatMessage → String
content_of none = ""
content_of (some m) = m.content

-- sorted(results, key=dsr, reverse=True)[:5]
unfoldable pub top_results : List BacktestResult → List BacktestResult
unfolding sort_desc
top_results results = take 5 (sort_desc (λ r. r.dsr) results)

unfoldable pub n_survivors : List BacktestResult → ℕ
unfolding keep
n_survivors results = length (keep is_survivor results)

module _ (tools : Tools) where
  unfoldable pub plan_node : AgentState → Except AgentState
  plan_node s = do
    let goal = if s.goal == "" then content_of (last_message s.messages) else s.goal
    plan ← tools.plan_research goal
    ok (record s { plan = some plan; goal = goal; step = "plan" })

  unfoldable pub load_data_node : AgentState → Except AgentState
  load_data_node s = do
    plan ← need "AttributeError" s.plan
    prices ←
        tools.load_prices (get_or plan.tickers []) (get_or plan.start_date "2023-01-01")
          (get_or plan.end_date "2024-12-31") (get_or plan.timeframe "D1")
    ok (record s { prices = some prices; step = "load_data" })

  unfoldable pub generate_node : AgentState → Except AgentState
  generate_node s = do
    plan ← need "AttributeError" s.plan
    hypotheses ←
        tools.generate_hypotheses (get_or plan.tickers []) (get_or plan.hypothesis_families [])
          (get_or plan.n_hypotheses 20)
    ok (record s { hypotheses = some hypotheses; step = "generate" })

  -- plan.get("validation") or {}
  abbrev pub config_of : Plan → ValidationConfig
  config_of plan =
      get_or plan.validation
        (record { cpcv_splits = none; cpcv_test_splits = none; embargo_pct = none })

  -- The call of the tool for one hypothesis whose ticker has prices.
  abbrev pub backtest_call : Plan → Hypothesis → List ℕ → Except Backtest
  backtest_call plan h series =
      let v = config_of plan in
      tools.backtest_one h series (get_or plan.n_hypotheses 20) (get_or v.cpcv_splits 6)
        (get_or v.cpcv_test_splits 2) (get_or v.embargo_pct 10)

  abbrev pub add_result : Backtest → List BacktestResult → List BacktestResult
  add_result (error e) rs = rs
  add_result (result r) rs = r ∷ rs

  -- The loop over the hypotheses: those without prices are skipped, as are results with an error.
  unfoldable pub backtest_all :
      Plan → Option (Dict (List ℕ)) → List Hypothesis → Except (List BacktestResult)
  backtest_all plan prices [] = ok []
  backtest_all plan none (h ∷ hs) = raise "TypeError"
  backtest_all plan (some prices) (h ∷ hs) = elim (lookup h.ticker prices) [
    | none ↦ backtest_all plan (some prices) hs
    | some series ↦ do
      b ← backtest_call plan h series
      rest ← backtest_all plan (some prices) hs
      ok (add_result b rest)
  ]

  unfoldable pub backtest_node : AgentState → Except AgentState
  backtest_node s = do
    plan ← need "AttributeError" s.plan
    hypotheses ← need "TypeError" s.hypotheses
    results ← backtest_all plan s.prices hypotheses
    ok (record s { results = some results; step = "backtest"; n_tested = length results })

  unfoldable pub validate_node : AgentState → Except AgentState
  validate_node s = do
    results ← need "TypeError" s.results
    pbo ← tools.validate_portfolio results
    ok (record s { pbo = some pbo; step = "validate" })

  unfoldable pub narrate_node : AgentState → Except AgentState
  unfolding top_results n_survivors
  narrate_node s = do
    results ← need "TypeError" s.results
    pbo ← need "AttributeError" s.pbo
    let top = top_results results
    let survived = n_survivors results
    insights ← tools.extract_insights top (length results) survived pbo.pbo pbo.verdict
    let extra = or_else (tools.review_insights s.goal top insights pbo.pbo pbo.verdict) []
    plan ← need "AttributeError" s.plan
    narrative ←
        tools.narrate s.goal (get_or plan.tickers []) (get_or plan.hypothesis_families [])
          (length results) survived pbo.pbo pbo.verdict top
    ok (record s {
      insights = some (insights ++ extra);
      narrative = some narrative;
      step = "narrate";
      n_survived = survived;
    })

-- What the reply says.
pub data Response : Type 0 where
  failed : String → Response
  report : String → List String → Response
  unavailable : Response

-- The empty text counts as missing.
abbrev pub truthy : Option String → Option String
truthy none = none
truthy (some t) = if t == "" then none else some t

unfoldable pub response : AgentState → Response
response s = elim (truthy s.failure) [
  | some e ↦ failed e
  | none ↦ elim (truthy s.narrative) [
    | none ↦ unavailable
    | some text ↦ report text (get_or s.insights [])
  ]
]

-- respond_node; `render` formats the reply
unfoldable pub respond_node : (Response → String) → AgentState → AgentState
unfolding response
respond_node render s = record s {
  messages = s.messages ++ record { role = "assistant"; content = render (response s) } ∷ [];
  step = "done";
}
