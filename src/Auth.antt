-- ===== src/Auth.antt =====
-- aqr/auth.py: the signed session token. A text or a byte string is the list of its codes. The
-- libraries' encodings and the HMAC are the fields of `Crypto`; the secret is an argument, since
-- `_get_secret` yields the same one throughout a process. Times are `int(time.time())`.
pub mod Tokens
mod Examples
use pigeon_trade.Common.{
  ℕ, zero, suc, ◌+◌, String, Bool, true, false, Option, none, some, List, [], ◌∷◌, ◌++◌, ◌==◌,
  if◌then◌else◌, ltb, eqb, ◌&&◌, ◌≡◌, All,
}
use pigeon_trade.Common.Options.{◌>>=◌}
use pigeon_trade.Common.Except.{Except, ok, raise}

abbrev pub Text : Type 0
Text = List ℕ

pub record Crypto : Type 0 where
  -- hmac.new(key, payload, sha256).digest()
  pub hmac : Text → Text → Text
  -- _b64url_encode, and _b64url_decode, `none` where it raises
  pub b64url_encode : Text → Text
  pub b64url_decode : Text → Option Text
  -- str.encode and bytes.decode, `none` where it raises
  pub utf8 : Text → Text
  pub from_utf8 : Text → Option Text
  -- str(n), and int(s): `none` where it raises or the number is negative, hence in the past
  pub decimal : ℕ → Text
  pub read_int : Text → Option ℕ

abbrev pub dot : ℕ
dot = 46

abbrev pub colon : ℕ
colon = 58

-- _SIGNATURE_PREFIX, "v1."
abbrev pub signature_prefix : Text
signature_prefix = 118 ∷ 49 ∷ 46 ∷ []

-- The rest of a text that starts with the prefix.
unfoldable pub strip_prefix : Text → Text → Option Text
strip_prefix [] t = some t
strip_prefix (p ∷ ps) [] = none
strip_prefix (p ∷ ps) (c ∷ t) = let rest = strip_prefix ps t in if eqb p c then rest else none

abbrev pub push_front : ℕ → Option (Text × Text) → Option (Text × Text)
push_front c none = none
push_front c (some (a, b)) = some (c ∷ a, b)

-- s.split(sep, 1), where it has two parts
unfoldable pub split_first : ℕ → Text → Option (Text × Text)
split_first sep [] = none
split_first sep (c ∷ t) =
    let rest = split_first sep t in if eqb c sep then some ([], t) else push_front c rest

-- s.partition(sep), less the separator
abbrev pub partition : ℕ → Text → Text × Text
partition sep t = elim (split_first sep t) [ none ↦ (t, []) | some parts ↦ parts ]

-- hmac.compare_digest
unfoldable pub compare_digest : Text → Text → Bool
compare_digest [] [] = true
compare_digest [] (d ∷ u) = false
compare_digest (c ∷ t) [] = false
compare_digest (c ∷ t) (d ∷ u) = eqb c d && compare_digest t u

module _ (crypto : Crypto) (secret : Text) where
  abbrev pub payload_of : ℕ → Text → Text
  payload_of expiry session = crypto.utf8 (crypto.decimal expiry ++ colon ∷ session)

  abbrev pub token_of : Text → Text
  token_of payload =
      signature_prefix
      ++ (crypto.b64url_encode payload ++ dot ∷ crypto.b64url_encode (crypto.hmac secret payload))

  unfoldable pub sign_session : ℕ → ℕ → Text → Text
  sign_session now ttl session = token_of (payload_of (now + ttl) session)

  -- The part behind the signature: the expiry and the session.
  abbrev pub session_in : ℕ → Text × Text → Option Text
  session_in now (expiry_text, session) = do
    expiry ← crypto.read_int expiry_text
    if ltb expiry now then none else some session

  unfoldable pub session_of : ℕ → Text → Option Text
  session_of now text = session_in now (partition colon text)

  unfoldable pub checked : ℕ → Text → Text → Option Text
  unfolding session_of
  checked now payload sig =
      if compare_digest sig (crypto.hmac secret payload)
      then crypto.from_utf8 payload >>= session_of now
      else none

  pub verify_token : ℕ → Text → Option Text
  unfolding strip_prefix split_first checked
  verify_token now token = do
    body ← strip_prefix signature_prefix token
    parts ← split_first dot body
    payload ← crypto.b64url_decode parts.0
    sig ← crypto.b64url_decode parts.1
    checked now payload sig

  abbrev in_database : Except Bool → Text → Option Text
  in_database (raise e) session = none
  in_database (ok found) session = if found then some session else none

  abbrev confirmed : Option (Text → Except Bool) → Text → Option Text
  confirmed none session = some session
  confirmed (some exists) session = in_database (exists session) session

  -- The factory of database sessions, where one is given, is the query for the session's row.
  unfoldable pub verify_token_async : ℕ → Text → Option (Text → Except Bool) → Option Text
  unfolding verify_token
  verify_token_async now token factory = verify_token now token >>= confirmed factory

  -- The cookie, else the credentials of a "Bearer" authorization.
  abbrev chosen_token : Option Text → Option Text → Text
  chosen_token none none = []
  chosen_token none (some bearer) = bearer
  chosen_token (some []) none = []
  chosen_token (some []) (some bearer) = bearer
  chosen_token (some (c ∷ t)) bearer = c ∷ t

  abbrev required : Option Text → Except Text
  required none = raise "HTTPException 401"
  required (some session) = ok session

  pub require_session_id : ℕ → Option Text → Option Text → Except Text
  unfolding verify_token
  require_session_id now cookie bearer = required (verify_token now (chosen_token cookie bearer))

-- What the program relies on of the libraries.
pub record IsSound (crypto : Crypto) : Type 0 where
  pub b64url_round : (t : Text) → crypto.b64url_decode (crypto.b64url_encode t) ≡ some t
  -- the alphabet of base64url has no dot
  pub b64url_dotless : (t : Text) → All (λ c. eqb c dot ≡ false) (crypto.b64url_encode t)
  pub utf8_round : (t : Text) → crypto.from_utf8 (crypto.utf8 t) ≡ some t
  pub decimal_round : (n : ℕ) → crypto.read_int (crypto.decimal n) ≡ some n
  -- digits are not colons
  pub decimal_digits : (n : ℕ) → All (λ c. eqb c colon ≡ false) (crypto.decimal n)
