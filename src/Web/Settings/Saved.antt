-- ===== src/Web/Settings/Saved.antt =====
-- aqr/chat/web.py: what a request to save the settings does for each session.
use pigeon_trade.Common.{
  ℕ, String, Option, none, some, ◌==◌, if◌then◌else◌, ◌≡◌, ◌⊎◌, refl, ap, ◌∙◌, Bool-cases, inl, inr,
}
use pigeon_trade.Common.Except.{ok, Except-cases}
use pigeon_trade.Auth.{Text, Crypto}
use pigeon_trade.Registry.{Tables, get_or_create_session}
use pigeon_trade.Registry.Settings.{
  Cipher, IsSound, save_session_settings, credentials, plain, credentials-save_session_settings,
  settings-get_or_create_session,
}
use pigeon_trade.Web.RateLimit.{rate_limit_consume}
use pigeon_trade.Credentials.{Settings}
use pigeon_trade.Web.Settings.{
  Site, Form, Reply, http_error, redirect, settings_of, verified, resolve_session_id, saved_by,
  with_session, settings_save,
}
use pigeon_trade.Common.Dict.{lookup}

-- The settings that a form asks for.
abbrev pub asked : String → Form → Settings
asked sid form = record {
  session_id = sid;
  llm_model = form.llm_model;
  llm_api_key = form.llm_api_key;
  openai_api_key = form.openai_api_key;
  invest_token = form.invest_token;
  invest_sandbox = form.invest_sandbox == "on";
}

module _ (crypto : Crypto) (secret : Text) (codes : String → Text) (text : Text → String)
    (cipher : Cipher) where
  -- For `session`, which had the credentials of `db`: the reply is a redirect and they are those of the
  -- form if the token's session is this one, or the reply is an error and nothing has changed.
  abbrev pub Outcome : Option String → Form → Tables → String → Reply → Tables → Type 0
  Outcome found form db session reply db' =
      ((sid : String) × (reply ≡ redirect "/chat")
        × (found ≡ some sid)
        × (credentials cipher session db' ≡ (
            if sid == session then ok (some (asked sid form)) else credentials cipher session db)))
      ⊎ ((code : ℕ) × (reply ≡ http_error code)
          × (credentials cipher session db' ≡ credentials cipher session db))

  unchanged :
      (session sid : String) (db : Tables)
      → credentials cipher session (get_or_create_session sid db) ≡ credentials cipher session db
  unchanged session sid db =
      ap (λ t. plain cipher session (lookup session t))
        (settings-get_or_create_session cipher sid db)

  saved_by-Outcome :
      (sound : IsSound cipher) (now : ℕ) (form : Form) (db : Tables) (session : String)
      (found : Option String)
      → Outcome found form db session
          (saved_by crypto secret codes text cipher now form (with_session found db)).0
          (saved_by crypto secret codes text cipher now form (with_session found db)).1
  saved_by-Outcome sound now form db session none = inr (403, refl, refl)
  saved_by-Outcome sound now form db session (some sid) =
      let db0 = get_or_create_session sid db in
      elim (Except-cases (save_session_settings cipher now (settings_of sid form) db0)) [
        | inr (x, k) ↦ rw k (inr (500, refl, unchanged session sid db))
        | inl (db', k) ↦
            let stored =
              credentials-save_session_settings cipher sound now (settings_of sid form) db0 db'
                session k in
            rw k (
              inl (
                sid,
                refl,
                refl,
                (stored
                    ∙ ap (λ c. if sid == session then ok (some (settings_of sid form)) else c)
                        (unchanged session sid db)),
              ))
      ]

  -- With a cipher that reads what it writes: a request to save the settings ends in a redirect, and
  -- then the session of its valid token has the settings of the form and every other session what it
  -- had; or it ends in an error, and then no session's settings have changed.
  pub settings_save-Outcome :
      (sound : IsSound cipher) (ip : String) (clock now : ℕ) (token : Text) (form : Form)
      (site : Site) (session : String)
      → Outcome
          (verified crypto secret codes text now token)
          form
          site.db
          session
          (settings_save crypto secret codes text cipher ip clock now token form site).0
          (settings_save crypto secret codes text cipher ip clock now token form site).1.db
  unfolding settings_save resolve_session_id
  settings_save-Outcome sound ip clock now token form site session =
      let found = verified crypto secret codes text now token in
      elim (Bool-cases (rate_limit_consume ip clock site.buckets).0) [
        | inl e ↦ rw e (saved_by-Outcome sound now form site.db session found)
        | inr e ↦ rw e (inr (429, refl, refl))
      ]
