-- ===== src/Agent/Router.antt =====
-- The routing functions and the edges of the graph (aqr/graph/graph.py, _deterministic_route to
-- build_graph). What the router learns from the environment and from the LLM is an argument.
use pigeon_trade.Common.{String, Bool, none, some, ◌==◌, ◌≡◌, refl, if◌then◌else◌, not}
use pigeon_trade.Common.Except.{Except, ok, raise}
use pigeon_trade.Agent.{AgentState, Response, truthy, last_message, respond_node}

pub data Node : Type 0 where
  route plan load_data generate backtest validate narrate respond : Node

pub data Next : Type 0 where
  goto : Node → Next
  finish : Next

-- The dict `pipeline_order`, and what follows it.
unfoldable pub route_of_step : String → Next
route_of_step step =
    if step == ""
    then goto plan
    else if step == "plan"
    then goto load_data
    else if step == "load_data"
    then goto generate
    else if step == "generate"
    then goto backtest
    else if step == "backtest"
    then goto validate
    else if step == "validate"
    then goto narrate
    else if step == "narrate"
    then goto respond
    else if step == "done"
    then finish
    else goto respond

unfoldable pub deterministic_route : AgentState → Next
unfolding route_of_step
deterministic_route s = elim (truthy s.failure) [
  | some e ↦ goto respond
  | none ↦ route_of_step s.step
]

-- What `_llm_route` finds around it: whether some LLM key is set, the model, and the LLM's action
-- (`raise` where the request or the parsing of its answer fails; "respond" where it names none).
pub record Llm : Type 0 where
  pub has_key : Bool
  pub model : String
  pub action : AgentState → Except String

-- The test `action in valid_actions` and the returns under it.
unfoldable pub route_of_action : String → AgentState → Next
unfolding deterministic_route
route_of_action action s =
    if action == "plan"
    then goto plan
    else if action == "load_data"
    then goto load_data
    else if action == "generate"
    then goto generate
    else if action == "backtest"
    then goto backtest
    else if action == "validate"
    then goto validate
    else if action == "narrate"
    then goto narrate
    else if action == "respond"
    then goto respond
    else deterministic_route s

route_of_answer : Except String → AgentState → Next
unfolding route_of_action
route_of_answer (ok action) s = route_of_action action s
route_of_answer (raise e) s = deterministic_route s

unfoldable pub llm_route : Llm → AgentState → Next
unfolding route_of_answer
llm_route llm s =
    if s.step == "done"
    then finish
    else if not llm.has_key
    then deterministic_route s
    else if llm.model == ""
    then deterministic_route s
    else elim (last_message s.messages) [
      | none ↦ deterministic_route s
      | some m ↦ route_of_answer (llm.action s) s
    ]

-- route_node: the update of the step. The assignments to the state that it is passed change a copy.
unfoldable pub route_node : AgentState → AgentState
route_node s = if s.step == "done" then record s { step = "" } else s

-- build_graph: the node that follows a node, in the state behind it.
unfoldable pub next : Llm → Node → AgentState → Next
unfolding deterministic_route llm_route
next llm route s = deterministic_route s
next llm plan s = goto load_data
next llm load_data s = goto generate
next llm generate s = goto backtest
next llm backtest s = goto validate
next llm validate s = goto narrate
next llm narrate s = goto respond
next llm respond s = llm_route llm s

-- Behind the respond node the graph always ends: the follow-up edges that `_llm_route` is there to
-- choose are never taken, whatever the LLM would answer.
pub respond_ends :
    (llm : Llm) (render : Response → String) (s : AgentState)
    → next llm respond (respond_node render s) ≡ finish
unfolding next respond_node
respond_ends llm render s = refl

-- The LLM's action "done" does not end the graph: the answer of the deterministic router does.
pub done_action_ignored : (s : AgentState) → route_of_action "done" s ≡ deterministic_route s
unfolding route_of_action
done_action_ignored s = refl
