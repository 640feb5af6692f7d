-- ===== src/Agent/Pipeline.antt =====
-- A run of the graph (run_agent). LangGraph's engine is a parameter: it runs a node, merges the
-- node's update, and goes where the node's edge leads.
pub mod Results
use pigeon_trade.Common.{
  ℕ, zero, suc, String, Bool, true, false, Option, none, some, List, [], ◌∷◌, ◌++◌, ◌==◌, ◌≡◌, refl,
  sym, ap, ◌∙◌, fun_ext, arith, eq_iff, if◌then◌else◌,
}
use pigeon_trade.Common.Except.{Except, ok, raise, ◌>>=◌}
use pigeon_trade.Research.{Tools, Plan, Pbo, BacktestResult}
use pigeon_trade.Agent.{
  AgentState, ChatMessage, Response, truthy, plan_node, load_data_node, generate_node,
  backtest_node, validate_node, narrate_node, respond_node,
}
use pigeon_trade.Agent.Router.{
  Node, route, plan, load_data, generate, backtest, validate, narrate, respond, Next, goto, finish,
  Llm, next, route_node, route_of_step, deterministic_route, respond_ends,
}

-- The functions that build_graph adds to the graph.
unfoldable pub node : Tools → (Response → String) → Node → AgentState → Except AgentState
node tools render route s = ok (route_node s)
node tools render plan s = plan_node tools s
node tools render load_data s = load_data_node tools s
node tools render generate s = generate_node tools s
node tools render backtest s = backtest_node tools s
node tools render validate s = validate_node tools s
node tools render narrate s = narrate_node tools s
node tools render respond s = ok (respond_node render s)

abbrev pub Engine : Type 0
Engine = Node → AgentState → Except AgentState

abbrev pub continue : Engine → Next → AgentState → Except AgentState
continue engine finish s = ok s
continue engine (goto n) s = engine n s

-- What the program relies on: the engine runs a node and follows its edge.
abbrev pub Follows : Tools → (Response → String) → Llm → Engine → Type 0
Follows tools render llm engine =
    (n : Node) (s : AgentState)
    → engine n s ≡ (node tools render n s >>= λ s'. continue engine (next llm n s') s')

-- The pipeline as one straight line.
unfoldable pub straight : Tools → (Response → String) → AgentState → Except AgentState
straight tools render s = do
  planned ← plan_node tools s
  loaded ← load_data_node tools planned
  generated ← generate_node tools loaded
  tested ← backtest_node tools generated
  validated ← validate_node tools tested
  narrated ← narrate_node tools validated
  ok (respond_node render narrated)

-- The state in which `run_agent` starts the graph.
abbrev pub initial : String → String → String → AgentState
initial message session prompt = record {
  messages = record { role = "user"; content = message } ∷ [];
  session_id = session;
  goal = message;
  plan = none;
  prices = none;
  hypotheses = none;
  results = none;
  pbo = none;
  insights = none;
  narrative = none;
  session_context_prompt = prompt;
  step = "";
  failure = none;
  n_tested = 0;
  n_survived = 0;
}

-- The last assistant message, the first that the loop over `reversed(messages)` meets.
unfoldable pub last_assistant : List ChatMessage → Option ChatMessage
last_assistant [] = none
last_assistant (m ∷ ms) = elim (last_assistant ms) [
  | some r ↦ some r
  | none ↦ if m.role == "assistant" then some m else none
]

abbrev pub reply_text : Option ChatMessage → String
reply_text none = ""
reply_text (some m) = m.content

-- What `run_agent` returns: the error's reply, or the texts and values of the final state.
pub record AgentReply : Type 0 where
  pub response : String
  pub narrative : Option String
  pub results : Option (List BacktestResult)
  pub error : Option String

abbrev reply_of : Except AgentState → AgentReply
reply_of (raise e) = record {
  response = "Ошибка при выполнении";
  narrative = none;
  results = none;
  error = some e;
}
reply_of (ok s) = record {
  response = reply_text (last_assistant s.messages);
  narrative = s.narrative;
  results = s.results;
  error = none;
}

unfoldable pub run_agent : Engine → String → String → String → AgentReply
unfolding last_assistant
run_agent engine message session prompt = reply_of (engine route (initial message session prompt))

bind_congr {ℓ κ} :
    {A : Type ℓ} {B : Type κ} (m : Except A) (f g : A → Except B)
    → ((a : A) → f a ≡ g a)
    → (m >>= f) ≡ (m >>= g)
bind_congr m f g h = ap (λ k. m >>= k) (fun_ext h)

route_node_start : (s : AgentState) → s.step ≡ "" → route_node s ≡ s
unfolding route_node
route_node_start s start = rw (ap (λ (t : String). t == "done") start)

route_of_start : (t : String) → t ≡ "" → route_of_step t ≡ goto plan
unfolding route_of_step
route_of_start t e = rw e

route_start :
    (s : AgentState) → truthy s.failure ≡ none → s.step ≡ "" → deterministic_route s ≡ goto plan
unfolding deterministic_route
route_start s clean start = rw (clean, deterministic_route) (route_of_start s.step start)

module _ (tools : Tools) (render : Response → String) (llm : Llm) (engine : Engine)
    (follows : Follows tools render llm engine) where
  at_respond : (s : AgentState) → engine respond s ≡ ok (respond_node render s)
  unfolding node
  at_respond s =
      follows respond s
      ∙ ap (λ n. continue engine n (respond_node render s)) (respond_ends llm render s)

  at_narrate :
      (s : AgentState)
      → engine narrate s ≡ (narrate_node tools s >>= λ t. ok (respond_node render t))
  unfolding node next
  at_narrate s = follows narrate s ∙ bind_congr (narrate_node tools s) _ _ at_respond

  at_validate :
      (s : AgentState)
      → engine validate s
        ≡ (validate_node tools s >>= λ t. narrate_node tools t >>= λ u. ok (respond_node render u))
  unfolding node next
  at_validate s = follows validate s ∙ bind_congr (validate_node tools s) _ _ at_narrate

  at_backtest :
      (s : AgentState)
      → engine backtest s ≡ (
          backtest_node tools s >>= λ r.
          validate_node tools r >>= λ t. narrate_node tools t >>= λ u. ok (respond_node render u))
  unfolding node next
  at_backtest s = follows backtest s ∙ bind_congr (backtest_node tools s) _ _ at_validate

  at_generate :
      (s : AgentState)
      → engine generate s ≡ (
          generate_node tools s >>= λ q. backtest_node tools q >>= λ r.
          validate_node tools r >>= λ t. narrate_node tools t >>= λ u. ok (respond_node render u))
  unfolding node next
  at_generate s = follows generate s ∙ bind_congr (generate_node tools s) _ _ at_backtest

  at_load_data :
      (s : AgentState)
      → engine load_data s ≡ (
          load_data_node tools s >>= λ p. generate_node tools p >>= λ q.
          backtest_node tools q >>= λ r.
          validate_node tools r >>= λ t. narrate_node tools t >>= λ u. ok (respond_node render u))
  unfolding node next
  at_load_data s = follows load_data s ∙ bind_congr (load_data_node tools s) _ _ at_generate

  at_plan : (s : AgentState) → engine plan s ≡ straight tools render s
  unfolding node next straight
  at_plan s = follows plan s ∙ bind_congr (plan_node tools s) _ _ at_load_data

  -- A run that starts with no step and no error is the pipeline as one straight line: each node
  -- once, in the order of the graph, up to the first exception, and no follow-up.
  pub engine-straight :
      (s : AgentState)
      → truthy s.failure ≡ none
      → s.step ≡ ""
      → engine route s ≡ straight tools render s
  unfolding node next deterministic_route route_node
  engine-straight s clean start =
      follows route s ∙ rw (route_node_start s start) (rw (route_start s clean start) (at_plan s))
