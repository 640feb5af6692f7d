-- ===== src/Chat/Session.antt =====
-- The handshake and the loop over the client's messages (chat_ws).
use pigeon_trade.Common.{
  ℕ, String, Bool, true, false, Option, none, some, List, [], ◌∷◌, ◌==◌, if◌then◌else◌, ltb,
}
use pigeon_trade.Common.Except.{Except, ok, raise}
use pigeon_trade.Agent.{ChatMessage}
use pigeon_trade.Chat.{
  Credentials, connected, error, history, pong, user_echo, Chat, Engine, tell, save_history,
  load_history, load_credentials, run_for_session,
}

-- WS_MAX_MESSAGE_BYTES
abbrev pub max_bytes : ℕ
max_bytes = 131072

pub data Content : Type 0 where
  -- missing, null or another false value
  absent : Content
  -- a text, by its `strip()`
  text : String → Content
  -- any other value, which has no `strip`
  not_text : Content

-- What `json.loads` makes of a message.
pub data Payload : Type 0 where
  -- JSONDecodeError
  invalid : Payload
  -- a value without `get`
  not_object : Payload
  -- its type, where it is a text, and its content
  object : Option String → Content → Payload

pub data Input : Type 0 where
  -- a message of the client: its size in bytes, and what it says
  receives : ℕ → Payload → Input
  disconnects : Input
  -- beside the conversation: the settings are saved, the database goes away or comes back
  configures : Credentials → Input
  database : Bool → Input

pub data Turn : Type 0 where
  goes_on : Option Credentials → Chat → Turn
  ends : Chat → Turn

module _ (engine : Engine) (session hint : String) where
  -- The part of a "message" behind the check of the credentials.
  abbrev pub answered : String → Credentials → Chat → Turn
  answered content creds c = goes_on (some creds) (
      run_for_session engine session content creds
        (tell (user_echo content) (save_history "user" content c)))

  abbrev pub reloaded : String → Chat → Except (Option Credentials) → Turn
  reloaded content c (raise e) = ends (tell (error "Internal server error") c)
  reloaded content c (ok none) = goes_on none (tell (error hint) c)
  reloaded content c (ok (some creds)) = answered content creds c

  abbrev pub with_credentials : String → Option Credentials → Chat → Turn
  with_credentials content none c = reloaded content c (load_credentials c)
  with_credentials content (some creds) c = answered content creds c

  unfoldable pub on_message : Content → Option Credentials → Chat → Turn
  on_message absent creds c = goes_on creds c
  on_message not_text creds c = ends (tell (error "Internal server error") c)
  on_message (text content) creds c =
      if content == "" then goes_on creds c else with_credentials content creds c

  abbrev unknown : Option Credentials → Chat → Turn
  unknown creds c = goes_on creds (tell (error "Unknown message type") c)

  unfoldable pub on_payload : Payload → Option Credentials → Chat → Turn
  unfolding on_message
  on_payload invalid creds c = goes_on creds (tell (error "Invalid JSON") c)
  on_payload not_object creds c = ends (tell (error "Internal server error") c)
  on_payload (object none content) creds c = unknown creds c
  on_payload (object (some kind) content) creds c =
      if kind == "ping"
      then goes_on creds (tell pong c)
      else if kind == "resume"
      then goes_on creds (tell (history (load_history c)) c)
      else if kind == "message"
      then on_message content creds c
      else unknown creds c

  -- One round of the loop.
  unfoldable pub on_input : Input → Option Credentials → Chat → Turn
  unfolding on_payload
  on_input (receives size payload) creds c =
      if ltb max_bytes size
      then goes_on creds (tell (error "Message too large") c)
      else on_payload payload creds c
  on_input disconnects creds c = ends c
  on_input (configures stored) creds c = goes_on creds (record c { settings = some (ok stored) })
  on_input (database up) creds c = goes_on creds (record c { db_up = up })

  -- The loop `while True`; where the inputs are used up it waits for the next.
  unfoldable pub chat_loop : List Input → Option Credentials → Chat → Chat
  unfolding on_input
  chat_loop [] creds c = c
  chat_loop (i ∷ is) creds c = elim (on_input i creds c) [
    | goes_on creds' c' ↦ chat_loop is creds' c'
    | ends c' ↦ c'
  ]

  abbrev hello : Option Credentials → Chat → Chat
  hello none c = tell (error hint) (tell (connected session false) c)
  hello (some creds) c = tell (connected session true) c

  abbrev with_history : List ChatMessage → Chat → Chat
  with_history [] c = c
  with_history (m ∷ ms) c = tell (history (m ∷ ms)) c

  abbrev opened : Except (Option Credentials) → List Input → Chat → Except Chat
  opened (raise e) is c = raise e
  opened (ok creds) is c =
      let greeted = hello creds c in
      ok (chat_loop is creds (with_history (load_history greeted) greeted))

-- chat_ws, for what the check of the token finds: without a session the socket is closed.
pub chat_ws : Engine → String → Option String → List Input → Chat → Except Chat
unfolding chat_loop
chat_ws engine hint none is c = ok c
chat_ws engine hint (some session) is c = opened engine session hint (load_credentials c) is c
