-- ===== src/Chat/Examples.antt =====
-- The theorems on the conversation (aqr/chat/ws.py) at a client with three messages.
use pigeon_trade.Common.{true, none, some, List, [], ◌∷◌, ◌++◌, ◌≡◌, refl, arith}
use pigeon_trade.Common.Except.{ok, raise}
use pigeon_trade.Agent.{AgentState}
use pigeon_trade.Agent.Pipeline.{initial}
use pigeon_trade.Chat.{Credentials, Chat, Engine, run_inner, done_of}
use pigeon_trade.Chat.Runner.{progress_of, run_inner-sent}
use pigeon_trade.Chat.Session.{absent, text, object, Input, receives, disconnects, chat_loop}
use pigeon_trade.Chat.Unconfigured.{chat_loop_unconfigured}

abbrev keys : Credentials
keys = record {
  llm_model = "claude";
  llm_api_key = "key";
  openai_api_key = "";
  invest_token = "t";
  invest_sandbox = true;
}

abbrev chat : Chat
chat = record {
  sent = [];
  room = 10;
  db_up = true;
  messages = record { role = "user"; content = "earlier" } ∷ [];
  settings = none;
  current = none;
}

abbrev first_state : AgentState
first_state = initial "momentum on SBER" "s" ""

abbrev stream : List AgentState
stream = record first_state { step = "plan" } ∷ record first_state { step = "done" } ∷ []

abbrev graph : Engine
graph = record {
  astream = λ creds s. (stream, ok tt);
  ainvoke = λ creds s. raise "RuntimeError";
  context_prompt = λ session. ok "";
}

abbrev broken : Engine
broken = record {
  astream = λ creds s. ([], raise "RuntimeError");
  ainvoke = λ creds s. raise "RuntimeError";
  context_prompt = λ session. raise "OperationalError";
}

abbrev inputs : List Input
inputs =
    receives 20 (object (some "message") (text "momentum on SBER"))
    ∷ receives 9 (object (some "ping") absent)
    ∷ disconnects
    ∷ []

run_inner-sent_example :
    (run_inner graph "s" "momentum on SBER" "" chat).sent
    ≡ progress_of stream ++ done_of (record first_state { step = "done" }) ∷ []
run_inner-sent_example =
    run_inner-sent graph "s" "momentum on SBER" "" chat stream refl (omega arith)

chat_loop_unconfigured_example :
    (chat_loop graph "s" "configure" inputs none chat
      ≡ chat_loop broken "s" "configure" inputs none chat)
    × ((chat_loop graph "s" "configure" inputs none chat).messages ≡ chat.messages)
chat_loop_unconfigured_example =
    chat_loop_unconfigured graph broken "s" "configure" inputs chat tt refl
