-- ===== src/Chat/Isolation.antt =====
-- What a conversation leaves as it was (chat_ws, _run_agent_for_session).
use pigeon_trade.Common.{
  String, Bool, true, false, Option, none, some, List, [], ◌∷◌, ◌==◌, ◌≡◌, refl, arith, ◌∙◌,
  if◌then◌else◌, ltb,
}
use pigeon_trade.Common.Except.{Except, ok, raise}
use pigeon_trade.Chat.{
  Credentials, Chat, Engine, Sent, error, pong, user_echo, send, tell, save_history,
  load_credentials,
}
use pigeon_trade.Chat.Runner.{run_for_session-current}
use pigeon_trade.Chat.Session.{
  Content, absent, text, not_text, Payload, invalid, not_object, object, Input, receives,
  disconnects, configures, database, Turn, answered, reloaded, with_credentials, goes_on, ends,
  on_message, on_payload, on_input, chat_loop, max_bytes,
}

abbrev chat_of : Turn → Chat
chat_of (goes_on creds c) = c
chat_of (ends c) = c

tell-current : (msg : Sent) (c : Chat) → (tell msg c).current ≡ c.current
unfolding send
tell-current msg c = ground arith

save_history-current :
    (role content : String) (c : Chat) → (save_history role content c).current ≡ c.current
unfolding save_history
save_history-current role content c = ground arith

module _ (engine : Engine) (session hint : String) where
  answered-current :
      (content : String) (creds : Credentials) (c : Chat)
      → (chat_of (answered engine session hint content creds c)).current ≡ c.current
  answered-current content creds c =
      run_for_session-current engine session content creds _
      ∙ tell-current (user_echo content) (save_history "user" content c)
      ∙ save_history-current "user" content c

  reloaded-current :
      (content : String) (c : Chat) (r : Except (Option Credentials))
      → (chat_of (reloaded engine session hint content c r)).current ≡ c.current
  reloaded-current content c (raise e) = tell-current _ c
  reloaded-current content c (ok none) = tell-current _ c
  reloaded-current content c (ok (some creds)) = answered-current content creds c

  with_credentials-current :
      (content : String) (creds : Option Credentials) (c : Chat)
      → (chat_of (with_credentials engine session hint content creds c)).current ≡ c.current
  with_credentials-current content none c = reloaded-current content c (load_credentials c)
  with_credentials-current content (some creds) c = answered-current content creds c

  -- Each branch of a test on the way leaves the variable.
  chosen-current :
      (b : Bool) (t u : Turn) (c : Chat)
      → (chat_of t).current ≡ c.current
      → (chat_of u).current ≡ c.current
      → (chat_of (if b then t else u)).current ≡ c.current
  chosen-current true t u c h k = h
  chosen-current false t u c h k = k

  on_message-current :
      (content : Content) (creds : Option Credentials) (c : Chat)
      → (chat_of (on_message engine session hint content creds c)).current ≡ c.current
  unfolding on_message
  on_message-current absent creds c = refl
  on_message-current not_text creds c = tell-current _ c
  on_message-current (text content) creds c =
      chosen-current (content == "") (goes_on creds c)
        (with_credentials engine session hint content creds c) c refl
        (with_credentials-current content creds c)

  on_payload-current :
      (p : Payload) (creds : Option Credentials) (c : Chat)
      → (chat_of (on_payload engine session hint p creds c)).current ≡ c.current
  unfolding on_payload
  on_payload-current invalid creds c = tell-current _ c
  on_payload-current not_object creds c = tell-current _ c
  on_payload-current (object none content) creds c = tell-current _ c
  on_payload-current (object (some kind) content) creds c =
      chosen-current (kind == "ping") _ _ c (tell-current pong c) (
        chosen-current (kind == "resume") _ _ c (tell-current _ c) (
          chosen-current (kind == "message") _ _ c (on_message-current content creds c)
            (tell-current (error "Unknown message type") c)))

  on_input-current :
      (i : Input) (creds : Option Credentials) (c : Chat)
      → (chat_of (on_input engine session hint i creds c)).current ≡ c.current
  unfolding on_input
  on_input-current (receives size payload) creds c =
      chosen-current (ltb max_bytes size) _ _ c (tell-current (error "Message too large") c)
        (on_payload-current payload creds c)
  on_input-current disconnects creds c = refl
  on_input-current (configures stored) creds c = refl
  on_input-current (database up) creds c = refl

  after_turn :
      (t : Turn) (is : List Input)
      → ((creds : Option Credentials) (c : Chat)
          → (chat_loop engine session hint is creds c).current ≡ c.current)
      → (elim t as (λ _. Chat) [
        | goes_on creds' c' ↦ chat_loop engine session hint is creds' c'
        | ends c' ↦ c'
      ]).current
        ≡ (chat_of t).current
  after_turn (goes_on creds c) is h = h creds c
  after_turn (ends c) is h = refl

  -- Whatever the client sends and however the runs of the agent end, the conversation leaves the
  -- variable that holds a session's credentials as it found it.
  pub chat_loop-current :
      (is : List Input) (creds : Option Credentials) (c : Chat)
      → (chat_loop engine session hint is creds c).current ≡ c.current
  unfolding chat_loop
  chat_loop-current [] creds c = refl
  chat_loop-current (i ∷ is) creds c =
      after_turn (on_input engine session hint i creds c) is (chat_loop-current is)
      ∙ on_input-current i creds c
