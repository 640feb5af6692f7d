-- ===== src/Agent/Examples.antt =====
-- The theorems on the conversational agent (aqr/graph/graph.py) at tools that answer.
use pigeon_trade.Common.{
  String, true, false, some, List, [], ◌∷◌, ◌≡◌, refl, sym, ap, Bool, if◌then◌else◌, Option-cases,
  inl, inr,
}
use pigeon_trade.Common.Dict.{lookup}
use pigeon_trade.Common.Except.{Except, ok, raise, ◌>>=◌}
use pigeon_trade.Research.{BacktestResult, Tools}
use pigeon_trade.Research.Sample.{sample_tools, tested, momentum, sample_plan}
use pigeon_trade.Agent.{
  AgentState, Response, truthy, plan_node, load_data_node, generate_node, backtest_node,
  validate_node, narrate_node, respond_node, top_results, n_survivors, backtest_all,
}
use pigeon_trade.Agent.Router.{
  route, plan, load_data, generate, backtest, validate, narrate, respond, Llm, Next, goto, finish,
  next, respond_ends, route_node, deterministic_route, route_of_step,
}
use pigeon_trade.Agent.Pipeline.{
  Engine, Follows, continue, node, straight, initial, engine-straight,
}
use pigeon_trade.Agent.Pipeline.Results.{IsTallied, straight_results}

abbrev answering : Tools
answering = sample_tools (ok "The strategy holds.")

abbrev render : Response → String
render r = "reply"

-- No key is set, so the router is the deterministic one.
abbrev no_llm : Llm
no_llm = record { has_key = false; model = ""; action = λ s. raise "KeyError" }

abbrev from_respond : AgentState → Except AgentState
from_respond s = ok (respond_node render s)

abbrev from_narrate : AgentState → Except AgentState
from_narrate s = narrate_node answering s >>= from_respond

abbrev from_validate : AgentState → Except AgentState
from_validate s = validate_node answering s >>= from_narrate

abbrev from_backtest : AgentState → Except AgentState
from_backtest s = backtest_node answering s >>= from_validate

abbrev from_generate : AgentState → Except AgentState
from_generate s = generate_node answering s >>= from_backtest

abbrev from_load_data : AgentState → Except AgentState
from_load_data s = load_data_node answering s >>= from_generate

abbrev from_plan : AgentState → Except AgentState
from_plan s = plan_node answering s >>= from_load_data

-- The edges lead back to the router from nowhere.
abbrev from : Next → AgentState → Except AgentState
from (goto plan) s = from_plan s
from (goto load_data) s = from_load_data s
from (goto generate) s = from_generate s
from (goto backtest) s = from_backtest s
from (goto validate) s = from_validate s
from (goto narrate) s = from_narrate s
from (goto respond) s = from_respond s
from (goto route) s = ok s
from finish s = ok s

-- An engine for this graph, written out: the edges form a line, so it needs no loop.
abbrev engine : Engine
engine route s = from (deterministic_route (route_node s)) (route_node s)
engine plan s = from_plan s
engine load_data s = from_load_data s
engine generate s = from_generate s
engine backtest s = from_backtest s
engine validate s = from_validate s
engine narrate s = from_narrate s
engine respond s = from_respond s

record Agrees (s : AgentState) (n : Next) : Type 0 where
  same : from n s ≡ continue engine n s

Agrees-if :
    (c : Bool) (a b : Next) (s : AgentState)
    → Agrees s a
    → Agrees s b
    → Agrees s (if c then a else b)
Agrees-if true a b s h k = h
Agrees-if false a b s h k = k

from-route_of_step : (t : String) (s : AgentState) → Agrees s (route_of_step t)
unfolding route_of_step
from-route_of_step t s =
    let leaf : (n : Next) → from n s ≡ continue engine n s → Agrees s n =
      λ n e. record { same = e } in
    Agrees-if _ _ _ s (leaf (goto plan) refl) (
      Agrees-if _ _ _ s (leaf (goto load_data) refl) (
        Agrees-if _ _ _ s (leaf (goto generate) refl) (
          Agrees-if _ _ _ s (leaf (goto backtest) refl) (
            Agrees-if _ _ _ s (leaf (goto validate) refl) (
              Agrees-if _ _ _ s (leaf (goto narrate) refl) (
                Agrees-if _ _ _ s (leaf (goto respond) refl)
                  (Agrees-if _ _ _ s (leaf finish refl) (leaf (goto respond) refl))))))))

from-deterministic_route :
    (s : AgentState) → from (deterministic_route s) s ≡ continue engine (deterministic_route s) s
unfolding deterministic_route
from-deterministic_route s = elim (Option-cases (truthy s.failure)) [
  | inl e ↦ rw (e, deterministic_route) ((from-route_of_step s.step s).same)
  | inr (x, e) ↦ rw (e, deterministic_route) refl
]

engine-Follows : Follows answering render no_llm engine
unfolding node next
engine-Follows route s = from-deterministic_route (route_node s)
engine-Follows plan s = refl
engine-Follows load_data s = refl
engine-Follows generate s = refl
engine-Follows backtest s = refl
engine-Follows validate s = refl
engine-Follows narrate s = refl
engine-Follows respond s =
    sym (ap (λ n. continue engine n (respond_node render s)) (respond_ends no_llm render s))

abbrev question : AgentState
question = initial "momentum on SBER" "session" ""

engine-straight_example : engine route question ≡ straight answering render question
engine-straight_example =
    engine-straight answering render no_llm engine engine-Follows question refl refl

abbrev answered : AgentState
answered = record question {
  messages =
      record { role = "user"; content = "momentum on SBER" }
      ∷ record { role = "assistant"; content = "reply" }
      ∷ [];
  plan = some sample_plan;
  prices = some (("SBER", 100 ∷ 101 ∷ []) ∷ []);
  hypotheses = some (momentum "fast" "SBER" ∷ momentum "slow" "GAZP" ∷ []);
  results = some (tested (momentum "fast" "SBER") ∷ []);
  pbo = some (record { pbo = 200; verdict = "robust" });
  insights = some ("one insight" ∷ []);
  narrative = some "The strategy holds.";
  step = "done";
  n_tested = 1;
  n_survived = 1;
}

straight_results_example : IsTallied answered × (answered.step ≡ "done")
unfolding straight plan_node load_data_node generate_node backtest_node validate_node narrate_node
    respond_node lookup backtest_all top_results n_survivors
straight_results_example = straight_results answering render question answered refl

abbrev ranked : List BacktestResult
ranked = tested (momentum "fast" "SBER") ∷ tested (momentum "slow" "GAZP") ∷ []
