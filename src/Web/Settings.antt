-- ===== src/Web/Settings.antt =====
-- aqr/chat/web.py: the routes of the chat's pages. A request has the address, the clocks and the
-- token of its path; the texts of the pages and the framework's validation of a form are left out.
-- `codes` and `text` lead between a token's text, which is a list of codes, and a native text.
pub mod Saved
use pigeon_trade.Common.{ℕ, Bool, String, Option, none, some, ◌==◌, if◌then◌else◌}
use pigeon_trade.Common.Except.{Except, ok, raise}
use pigeon_trade.Auth.{Text, Crypto, sign_session, verify_token_async}
use pigeon_trade.Credentials.{Settings}
use pigeon_trade.Registry.{Tables, SessionSettings, get_or_create_session}
use pigeon_trade.Registry.Settings.{Cipher, save_session_settings, load_session_settings}
use pigeon_trade.Web.RateLimit.{Buckets, rate_limit_consume}

-- The database and the module's _rate_buckets.
pub record Site : Type 0 where
  pub db : Tables
  pub buckets : Buckets

pub record Form : Type 0 where
  pub llm_model : String
  pub llm_api_key : String
  pub openai_api_key : String
  pub invest_token : String
  pub invest_sandbox : String

pub data Reply : Type 0 where
  http_error : ℕ → Reply
  redirect : String → Reply
  page : Reply
  not_configured : Reply
  configured : String → Reply
  -- the session and its token, which the cookie has too
  issued : String → Text → Reply

abbrev pub settings_of : String → Form → Settings
settings_of session form = record {
  session_id = session;
  llm_model = form.llm_model;
  llm_api_key = form.llm_api_key;
  openai_api_key = form.openai_api_key;
  invest_token = form.invest_token;
  invest_sandbox = form.invest_sandbox == "on";
}

abbrev pub with_session : Option String → Tables → Option String × Tables
with_session none db = (none, db)
with_session (some session) db = (some session, get_or_create_session session db)

module _ (crypto : Crypto) (secret : Text) (codes : String → Text) (text : Text → String) where
  -- The session of a token.
  unfoldable pub verified : ℕ → Text → Option String
  verified now token = elim (verify_token_async crypto secret now token none) [
    | none ↦ none
    | some session ↦ some (text session)
  ]

  -- _resolve_session_id; `none` is its HTTPException 403
  unfoldable pub resolve_session_id : ℕ → Text → Tables → Option String × Tables
  resolve_session_id now token db = with_session (verified now token) db

  -- chat_new; `session` is a new random id
  unfoldable pub chat_new : ℕ → ℕ → String → Site → Reply × Site
  chat_new now ttl session site = (
    issued session (sign_session crypto secret now ttl (codes session)),
    record site { db = get_or_create_session session site.db },
  )

  module _ (cipher : Cipher) where
    abbrev pub shown_page : Bool → Option String × Tables → Reply
    shown_page template (none, db) = http_error 403
    shown_page template (some session, db) =
        if template
        then elim (load_session_settings cipher session db) [
          | none ↦ page
          | some row ↦ redirect "/chat"
        ]
        else http_error 500

    -- settings_page; `template` says whether the file is there
    unfoldable pub settings_page : Bool → ℕ → Text → Site → Reply × Site
    unfolding resolve_session_id
    settings_page template now token site =
        let found = resolve_session_id now token site.db in
        (shown_page template found, record site { db = found.1 })

    abbrev pub shown_status : Option String × Tables → Reply
    shown_status (none, db) = http_error 403
    shown_status (some session, db) = elim (load_session_settings cipher session db) [
      | none ↦ not_configured
      | some row ↦ configured row.llm_model
    ]

    -- settings_status
    unfoldable pub settings_status : ℕ → Text → Site → Reply × Site
    unfolding resolve_session_id
    settings_status now token site =
        let found = resolve_session_id now token site.db in
        (shown_status found, record site { db = found.1 })

    -- An exception of the encryption rolls the session's transaction back.
    abbrev pub committed : Except Tables → Tables → Reply × Tables
    committed (raise e) db = (http_error 500, db)
    committed (ok db') db = (redirect "/chat", db')

    abbrev pub saved_by : ℕ → Form → Option String × Tables → Reply × Tables
    saved_by now form (none, db) = (http_error 403, db)
    saved_by now form (some session, db) =
        committed (save_session_settings cipher now (settings_of session form) db) db

    -- settings_save; `clock` is the monotonic clock
    unfoldable pub settings_save : String → ℕ → ℕ → Text → Form → Site → Reply × Site
    unfolding resolve_session_id
    settings_save ip clock now token form site =
        let (allowed, buckets) = rate_limit_consume ip clock site.buckets in
        let saved = saved_by now form (resolve_session_id now token site.db) in
        if allowed
        then (saved.0, record { db = saved.1; buckets = buckets })
        else (http_error 429, record site { buckets = buckets })
