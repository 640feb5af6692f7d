-- ===== src/Registry/Settings.antt =====
-- aqr/registry/store.py: the encrypted settings of a session. Fernet (aqr/crypto.py) is a parameter.
use pigeon_trade.Common.{
  ℕ, String, Option, none, some, ◌==◌, eq_iff, if◌then◌else◌, ◌≡◌, refl, sym, ap, ◌∙◌, arith, inl,
  inr, Bool-cases,
}
use pigeon_trade.Common.Dict.{lookup, insert, remove, lookup-insert}
use pigeon_trade.Common.Except.{Except, ok, ◌>>=◌, AllOk, AllOk-intro, AllOk-bind, AllOk-elim}
use pigeon_trade.Credentials.{Settings}
use pigeon_trade.Registry.{Tables, SessionSettings, get_or_create_session}

-- encrypt_str and decrypt_str
pub record Cipher : Type 0 where
  pub encrypt_str : String → Except String
  pub decrypt_str : String → Except String

-- A token that encrypt_str makes is read by decrypt_str, under the same secret.
abbrev pub IsSound : Cipher → Type 0
IsSound cipher =
    (plain token : String)
    → cipher.encrypt_str plain ≡ ok token
    → cipher.decrypt_str token ≡ ok plain

module _ (cipher : Cipher) where
  -- The row of the settings.
  abbrev encrypted : ℕ → Settings → Except SessionSettings
  encrypted now s = do
    llm ← cipher.encrypt_str s.llm_api_key
    openai ← cipher.encrypt_str s.openai_api_key
    invest ← cipher.encrypt_str s.invest_token
    ok (record {
      llm_model = s.llm_model;
      llm_api_key_encrypted = llm;
      openai_api_key_encrypted = openai;
      invest_token_encrypted = invest;
      invest_sandbox = s.invest_sandbox;
      updated_at = now;
    })

  -- save_session_settings: a new row, or the row that is there changed
  unfoldable pub save_session_settings : ℕ → Settings → Tables → Except Tables
  save_session_settings now s db =
      let db' = get_or_create_session s.session_id db in
      (encrypted now s >>= λ row.
      ok (record db' { settings = insert s.session_id row db'.settings }))

  -- load_session_settings
  abbrev pub load_session_settings : String → Tables → Option SessionSettings
  load_session_settings session db = lookup session db.settings

  -- delete_session_settings
  unfoldable pub delete_session_settings : String → Tables → Tables
  delete_session_settings session db = record db { settings = remove session db.settings }

  -- decrypt_settings
  unfoldable pub decrypt_settings : String → SessionSettings → Except Settings
  decrypt_settings session row = do
    llm ← cipher.decrypt_str row.llm_api_key_encrypted
    openai ← cipher.decrypt_str row.openai_api_key_encrypted
    invest ← cipher.decrypt_str row.invest_token_encrypted
    ok (record {
      session_id = session;
      llm_model = row.llm_model;
      llm_api_key = llm;
      openai_api_key = openai;
      invest_token = invest;
      invest_sandbox = row.invest_sandbox;
    })

  abbrev pub plain : String → Option SessionSettings → Except (Option Settings)
  plain session none = ok none
  plain session (some row) = decrypt_settings session row >>= λ s. ok (some s)

  -- What a session has stored, decrypted.
  abbrev pub credentials : String → Tables → Except (Option Settings)
  credentials session db = plain session (load_session_settings session db)

  pub settings-get_or_create_session :
      (session : String) (db : Tables) → (get_or_create_session session db).settings ≡ db.settings
  unfolding get_or_create_session
  settings-get_or_create_session session db = ground arith

  -- The row under a key reads back as the settings that were saved.
  abbrev ReadsAs : Settings → SessionSettings → Type 0
  ReadsAs s row = decrypt_settings s.session_id row ≡ ok s

  reads :
      IsSound cipher
      → (x : String) → AllOk (λ t. cipher.decrypt_str t ≡ ok x) (cipher.encrypt_str x)
  reads sound x = AllOk-intro (λ t. cipher.decrypt_str t ≡ ok x) (cipher.encrypt_str x) (sound x)

  encrypted-ReadsAs :
      IsSound cipher → (now : ℕ) (s : Settings) → AllOk (ReadsAs s) (encrypted now s)
  unfolding decrypt_settings
  encrypted-ReadsAs sound now s =
      AllOk-bind (λ t. cipher.decrypt_str t ≡ ok s.llm_api_key) (ReadsAs s) _ _
        (reads sound s.llm_api_key)
        (λ llm p.
          AllOk-bind (λ t. cipher.decrypt_str t ≡ ok s.openai_api_key) (ReadsAs s) _ _
            (reads sound s.openai_api_key)
            (λ openai q.
              AllOk-bind (λ t. cipher.decrypt_str t ≡ ok s.invest_token) (ReadsAs s) _ _
                (reads sound s.invest_token) (λ invest r. rw p (rw q (rw r refl)))))

  plain_step :
      (s : Settings) (row : SessionSettings) (session : String) (o : Option SessionSettings)
      → ReadsAs s row
      → plain session (if s.session_id == session then some row else o)
        ≡ (if s.session_id == session then ok (some s) else plain session o)
  plain_step s row session o r = elim (Bool-cases (s.session_id == session)) [
    | inl e ↦
        rw e (rw (sym ((eq_iff s.session_id session).0 e)) (ap (λ m. m >>= λ x. ok (some x)) r))
    | inr e ↦ rw e refl
  ]

  -- What a save does for the session that is asked about.
  abbrev Saves : Settings → Tables → String → Tables → Type 0
  Saves s db session db' =
      credentials session db'
      ≡ (if s.session_id == session then ok (some s) else credentials session db)

  -- With a cipher that reads what it writes: behind a save that succeeds the session has exactly the
  -- settings that were saved, and the other sessions have what they had.
  pub credentials-save_session_settings :
      IsSound cipher
      → (now : ℕ) (s : Settings) (db db' : Tables) (session : String)
      → save_session_settings now s db ≡ ok db'
      → credentials session db'
        ≡ (if s.session_id == session then ok (some s) else credentials session db)
  unfolding save_session_settings
  credentials-save_session_settings sound now s db db' session e =
      AllOk-elim (Saves s db session) (save_session_settings now s db)
        (AllOk-bind (ReadsAs s) (Saves s db session) (encrypted now s) _
          (encrypted-ReadsAs sound now s)
          (λ row r.
            let kept = (get_or_create_session s.session_id db).settings in
            ap (plain session) (lookup-insert s.session_id session row kept)
            ∙ rw (settings-get_or_create_session s.session_id db)
                (plain_step s row session (lookup session db.settings) r)))
        e
