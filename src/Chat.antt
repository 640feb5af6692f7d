-- ===== src/Chat.antt =====
-- aqr/chat/ws.py: the conversation of one session over a WebSocket. The socket is what was sent on
-- it and how many more messages the client takes before it disconnects; the database is the part of
-- it that belongs to the session. Times, and the summary fields of a progress message beside the
-- step, are left out, as is a saved message's meta; the texts of errors are shortened.
pub mod Runner
pub mod Session
pub mod Isolation
pub mod Unconfigured
mod Examples
use pigeon_trade.Common.{
  ℕ, ◌+◌, ◌-◌, String, Bool, true, false, ◌||◌, Option, none, some, List, [], ◌∷◌, ◌++◌, ◌==◌,
  if◌then◌else◌, ltb, eqb, length, drop,
}
use pigeon_trade.Common.Except.{Except, ok, raise, or_else}
use pigeon_trade.Research.{Plan, BacktestResult}
use pigeon_trade.Agent.{ChatMessage, AgentState, truthy}
use pigeon_trade.Agent.Pipeline.{initial, last_assistant, reply_text}

pub record Credentials : Type 0 where
  pub llm_model : String
  pub llm_api_key : String
  pub openai_api_key : String
  pub invest_token : String
  pub invest_sandbox : Bool

pub data Sent : Type 0 where
  connected : String → Bool → Sent
  error : String → Sent
  history : List ChatMessage → Sent
  pong : Sent
  user_echo : String → Sent
  progress : String → Sent
  -- narrative, assistant, n_results, plan_tickers
  done : String → String → ℕ → Option (List String) → Sent

pub record Chat : Type 0 where
  pub sent : List Sent
  pub room : ℕ
  pub db_up : Bool
  pub messages : List ChatMessage
  -- the row of session_settings, with its keys decrypted or not
  pub settings : Option (Except Credentials)
  -- the ContextVar of the credentials
  pub current : Option Credentials

-- The compiled graph, and the prompt that SessionContext builds; each sees the ContextVar.
pub record Engine : Type 0 where
  -- astream: the states that it yields, and how it ends
  pub astream : Option Credentials → AgentState → List AgentState × Except (Unit {0})
  pub ainvoke : Option Credentials → AgentState → Except AgentState
  pub context_prompt : String → Except String

-- _send_json
pub send : Sent → Chat → Chat × Bool
send msg c =
    if eqb c.room 0
    then (c, false)
    else (record c { sent = c.sent ++ msg ∷ []; room = c.room - 1 }, true)

-- _send_json, where its result is not looked at
abbrev pub tell : Sent → Chat → Chat
tell msg c = (send msg c).0

-- _save_history
pub save_history : String → String → Chat → Chat
save_history role content c =
    if c.db_up
    then record c { messages = c.messages ++ record { role = role; content = content } ∷ [] }
    else c

-- _load_history: the last 200 messages
pub load_history : Chat → List ChatMessage
load_history c = if c.db_up then drop (length c.messages - 200) c.messages else []

abbrev decrypted : Option (Except Credentials) → Except (Option Credentials)
decrypted none = ok none
decrypted (some (ok creds)) = ok (some creds)
decrypted (some (raise e)) = raise e

-- _load_credentials
pub load_credentials : Chat → Except (Option Credentials)
load_credentials c = if c.db_up then decrypted c.settings else raise "OperationalError"

-- The loop over `astream`: the state last seen, and whether a failed send broke the loop.
pub stream_loop : List AgentState → AgentState → Chat → Chat × (AgentState × Bool)
stream_loop [] last c = (c, (last, false))
stream_loop (ev ∷ evs) last c =
    let silent = stream_loop evs ev c in
    let told = stream_loop evs ev (tell (progress ev.step) c) in
    if ev.step == ""
    then silent
    else if (send (progress ev.step) c).1
    then told
    else (tell (progress ev.step) c, (last, true))

abbrev result_count : Option (List BacktestResult) → ℕ
result_count none = 0
result_count (some rs) = length rs

abbrev tickers_of : Option Plan → Option (List String)
tickers_of none = none
tickers_of (some plan) = plan.tickers

abbrev text_or : Option String → String → String
text_or none d = d
text_or (some t) d = t

abbrev pub answer_of : AgentState → String
answer_of last = reply_text (last_assistant last.messages)

abbrev pub done_of : AgentState → Sent
done_of last =
    done (text_or (truthy last.narrative) (answer_of last)) (answer_of last)
      (result_count last.results) (tickers_of last.plan)

-- The part of _run_agent_inner behind the run: the answer is saved and sent.
pub deliver : AgentState → Chat → Chat
deliver last c =
    let saved = if answer_of last == "" then c else save_history "assistant" (answer_of last) c in
    tell (done_of last) saved

abbrev retried : Except AgentState → Chat → Chat
retried (raise e) c = tell (error "Agent failed: internal server error") c
retried (ok last) c =
    let told = deliver last (tell (progress "final") c) in
    if (send (progress "final") c).1 then told else c

abbrev ended : Engine → AgentState → Except (Unit {0}) → Chat × (AgentState × Bool) → Chat
ended engine s (ok u) (c, (last, broke)) = deliver last c
ended engine s (raise e) (c, (last, broke)) =
    if broke then deliver last c else retried (engine.ainvoke c.current s) c

-- _run_agent_inner
pub run_inner : Engine → String → String → String → Chat → Chat
unfolding deliver stream_loop
run_inner engine session message prompt c =
    let s = initial message session prompt in
    let stream = engine.astream c.current s in ended engine s stream.1 (stream_loop stream.0 s c)

-- _run_agent_for_session; `set_credentials` before the run and `reset_credentials` behind it
pub run_for_session : Engine → String → String → Credentials → Chat → Chat
unfolding run_inner
run_for_session engine session message creds c =
    let started = tell (progress "start") c in
    let prompt =
      if creds.llm_api_key == "" then "" else or_else (engine.context_prompt session) "" in
    record (run_inner engine session message prompt (record started { current = some creds })) {
      current = started.current;
    }
