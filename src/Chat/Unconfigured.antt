-- ===== src/Chat/Unconfigured.antt =====
-- A session without stored credentials (chat_ws).
use pigeon_trade.Common.{
  String, Bool, true, false, Option, none, some, List, [], ◌∷◌, ◌==◌, ◌≡◌, refl, arith, ◌∙◌,
  if◌then◌else◌, ltb, Bool-cases, inl, inr, ◌⊎◌, ap,
}
use pigeon_trade.Common.Except.{Except, ok, raise}
use pigeon_trade.Chat.{Credentials, Chat, Engine, Sent, error, pong, send, tell, load_credentials}
use pigeon_trade.Chat.Session.{
  Content, absent, text, not_text, Payload, invalid, not_object, object, Input, receives,
  disconnects, configures, database, Turn, goes_on, ends, reloaded, on_message, on_payload,
  on_input, chat_loop, max_bytes,
}

-- Nobody saves settings for the session.
abbrev pub NeverConfigured : List Input → Type 0
NeverConfigured [] = Unit
NeverConfigured (configures stored ∷ is) = ⊥
NeverConfigured (i ∷ is) = NeverConfigured is

abbrev pub IsBare : Chat → Chat → Type 0
IsBare c c' = (c'.settings ≡ none) × (c'.messages ≡ c.messages)

-- The turn of both engines is the same one, which has no credentials and saves nothing.
abbrev BareTurn : Chat → Turn → Turn → Type 0
BareTurn c (goes_on none d) (goes_on none e) = (d ≡ e) × IsBare c d
BareTurn c (ends d) (ends e) = (d ≡ e) × IsBare c d
BareTurn c _ _ = ⊥

tell-IsBare : (msg : Sent) (c : Chat) → c.settings ≡ none → IsBare c (tell msg c)
unfolding send
tell-IsBare msg c h = ground arith

module _ (engine other : Engine) (session hint : String) where
  reloaded-BareTurn :
      (content : String) (c : Chat) (r : Except (Option Credentials))
      → c.settings ≡ none
      → (r ≡ ok none) ⊎ ((e : String) × (r ≡ raise e))
      → BareTurn c
          (reloaded engine session hint content c r)
          (reloaded other session hint content c r)
  reloaded-BareTurn content c (raise e) h k = (refl, tell-IsBare _ c h)
  reloaded-BareTurn content c (ok none) h k = (refl, tell-IsBare _ c h)
  reloaded-BareTurn content c (ok (some creds)) h k = elim k [ inl e ↦ cc | inr (x, e) ↦ cc ]

  load_credentials-none :
      (c : Chat)
      → c.settings ≡ none
      → (load_credentials c ≡ ok none) ⊎ ((e : String) × (load_credentials c ≡ raise e))
  unfolding load_credentials
  load_credentials-none c h = elim (Bool-cases c.db_up) [
    | inl e ↦ inl (rw (e, h))
    | inr e ↦ inr ("OperationalError", rw e)
  ]

  chosen-BareTurn :
      (b : Bool) (t u t' u' : Turn) (c : Chat)
      → BareTurn c t t'
      → BareTurn c u u'
      → BareTurn c (if b then t else u) (if b then t' else u')
  chosen-BareTurn true t u t' u' c h k = h
  chosen-BareTurn false t u t' u' c h k = k

  on_message-BareTurn :
      (content : Content) (c : Chat)
      → c.settings ≡ none
      → BareTurn c
          (on_message engine session hint content none c)
          (on_message other session hint content none c)
  unfolding on_message
  on_message-BareTurn absent c h = (refl, (h, refl))
  on_message-BareTurn not_text c h = (refl, tell-IsBare _ c h)
  on_message-BareTurn (text content) c h =
      chosen-BareTurn (content == "") _ _ _ _ c (refl, (h, refl))
        (reloaded-BareTurn content c (load_credentials c) h (load_credentials-none c h))

  on_payload-BareTurn :
      (p : Payload) (c : Chat)
      → c.settings ≡ none
      → BareTurn c
          (on_payload engine session hint p none c)
          (on_payload other session hint p none c)
  unfolding on_payload
  on_payload-BareTurn invalid c h = (refl, tell-IsBare _ c h)
  on_payload-BareTurn not_object c h = (refl, tell-IsBare _ c h)
  on_payload-BareTurn (object none content) c h = (refl, tell-IsBare _ c h)
  on_payload-BareTurn (object (some kind) content) c h =
      chosen-BareTurn (kind == "ping") _ _ _ _ c (refl, tell-IsBare pong c h)
        (chosen-BareTurn (kind == "resume") _ _ _ _ c (refl, tell-IsBare _ c h)
          (chosen-BareTurn (kind == "message") _ _ _ _ c (on_message-BareTurn content c h)
            (refl, tell-IsBare (error "Unknown message type") c h)))

  on_input-BareTurn :
      (i : Input) (c : Chat)
      → NeverConfigured (i ∷ [])
      → c.settings ≡ none
      → BareTurn c (on_input engine session hint i none c) (on_input other session hint i none c)
  unfolding on_input
  on_input-BareTurn (receives size payload) c n h =
      chosen-BareTurn (ltb max_bytes size) _ _ _ _ c
        (refl, tell-IsBare (error "Message too large") c h) (on_payload-BareTurn payload c h)
  on_input-BareTurn disconnects c n h = (refl, (h, refl))
  on_input-BareTurn (configures stored) c n h = absurd n
  on_input-BareTurn (database up) c n h = (refl, (h, refl))

  abbrev Silent : List Input → Chat → Type 0
  Silent is c =
      (chat_loop engine session hint is none c ≡ chat_loop other session hint is none c)
      × ((chat_loop engine session hint is none c).messages ≡ c.messages)

  after_bare :
      (t u : Turn) (is : List Input) (c : Chat)
      → BareTurn c t u
      → ((d : Chat) → d.settings ≡ none → Silent is d)
      → (◌≡◌ {A = Chat}
          (elim t as (λ _. Chat) [
            | goes_on creds' c' ↦ chat_loop engine session hint is creds' c'
            | ends c' ↦ c'
          ])
          (elim u as (λ _. Chat) [
            | goes_on creds' c' ↦ chat_loop other session hint is creds' c'
            | ends c' ↦ c'
          ]))
        × ((elim t as (λ _. Chat) [
          | goes_on creds' c' ↦ chat_loop engine session hint is creds' c'
          | ends c' ↦ c'
        ]).messages
            ≡ c.messages)
  after_bare (goes_on none d) (goes_on none e) is c (same, (s, m)) h =
      ((h d s).0 ∙ ap (λ x. chat_loop other session hint is none x) same, (h d s).1 ∙ m)
  after_bare (ends d) (ends e) is c (same, (s, m)) h = (same, m)
  after_bare (goes_on none d) (goes_on (some x) e) is c b h = absurd b
  after_bare (goes_on (some x) d) (goes_on y e) is c b h = absurd b
  after_bare (goes_on none d) (ends e) is c b h = absurd b
  after_bare (goes_on (some x) d) (ends e) is c b h = absurd b
  after_bare (ends d) (goes_on x e) is c b h = absurd b

  NeverConfigured-tail :
      (i : Input) (is : List Input) → NeverConfigured (i ∷ is) → NeverConfigured is
  NeverConfigured-tail (receives size payload) is n = n
  NeverConfigured-tail disconnects is n = n
  NeverConfigured-tail (configures stored) is n = absurd n
  NeverConfigured-tail (database up) is n = n

  NeverConfigured-head :
      (i : Input) (is : List Input) → NeverConfigured (i ∷ is) → NeverConfigured (i ∷ [])
  NeverConfigured-head (receives size payload) is n = tt
  NeverConfigured-head disconnects is n = tt
  NeverConfigured-head (configures stored) is n = absurd n
  NeverConfigured-head (database up) is n = tt

  -- While a session has no stored credentials and nobody saves any, whatever the client sends runs
  -- no agent and saves no message: the conversation is the same with any engine, and the history
  -- stays as it was.
  pub chat_loop_unconfigured :
      (is : List Input) (c : Chat)
      → NeverConfigured is
      → c.settings ≡ none
      → (chat_loop engine session hint is none c ≡ chat_loop other session hint is none c)
        × ((chat_loop engine session hint is none c).messages ≡ c.messages)
  unfolding chat_loop
  chat_loop_unconfigured [] c n h = (refl, refl)
  chat_loop_unconfigured (i ∷ is) c n h =
      after_bare (on_input engine session hint i none c) (on_input other session hint i none c) is c
        (on_input-BareTurn i c (NeverConfigured-head i is n) h)
        (λ d s. chat_loop_unconfigured is d (NeverConfigured-tail i is n) s)
