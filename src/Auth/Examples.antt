-- ===== src/Auth/Examples.antt =====
-- The theorems on the tokens (aqr/auth.py) with simple encodings in the place of the libraries'.
use pigeon_trade.Common.{
  ℕ, ◌+◌, ◌-◌, ◌≤◌, Bool, false, Option, none, some, [], ◌∷◌, ◌++◌, map, eqb, ◌≡◌, refl, ap, All,
  arith,
}
use pigeon_trade.Common.Except.{Except, ok}
use pigeon_trade.Auth.{
  Text, Crypto, IsSound, dot, colon, partition, signature_prefix, sign_session, verify_token,
  verify_token_async, token_of, payload_of, compare_digest,
}
use pigeon_trade.Auth.Tokens.{verify_token-sign_session, verify_token_authentic}

abbrev read_first : Text → Option ℕ
read_first [] = none
read_first (c ∷ t) = some (c - 100)

-- Codes are moved behind the separators.
abbrev plain : Crypto
plain = record {
  hmac = λ key payload. key ++ payload;
  b64url_encode = map (λ c. c + 100);
  b64url_decode = λ t. some (map (λ c. c - 100) t);
  utf8 = λ t. t;
  from_utf8 = λ t. some t;
  decimal = λ n. (n + 100) ∷ [];
  read_int = read_first;
}

moved_back : (t : Text) → map (λ c. c - 100) (map (λ c. c + 100) t) ≡ t
moved_back [] = refl
moved_back (c ∷ t) = ground (arith, moved_back t)

moved_dotless : (t : Text) → All (λ c. eqb c dot ≡ false) (map (λ c. c + 100) t)
moved_dotless [] = tt
moved_dotless (c ∷ t) = (ground arith, moved_dotless t)

plain-IsSound : IsSound plain
plain-IsSound = record {
  b64url_round = λ t. ap some (moved_back t);
  b64url_dotless = moved_dotless;
  utf8_round = λ t. refl;
  decimal_round = λ n. ap some (omega arith);
  decimal_digits = λ n. (ground arith, tt);
}

abbrev secret : Text
secret = 7 ∷ []

abbrev alice : Text
alice = 97 ∷ []

verify_token-sign_session_example :
    verify_token plain secret 30 (sign_session plain secret 10 25 alice) ≡ some alice
verify_token-sign_session_example =
    verify_token-sign_session plain secret plain-IsSound 10 25 30 alice

abbrev token : Text
token = token_of plain secret (payload_of plain secret 35 alice)

token_accepted : verify_token plain secret 30 token ≡ some alice
unfolding sign_session
token_accepted = verify_token-sign_session plain secret plain-IsSound 10 25 30 alice

verify_token_authentic_example :
    (body64 : Text) × (sig64 : Text) × (payload : Text) × (text : Text) × (expiry_text : Text)
    × (expiry : ℕ) × (token ≡ signature_prefix ++ (body64 ++ dot ∷ sig64))
    × All (λ c. eqb c dot ≡ false) body64
    × (plain.b64url_decode body64 ≡ some payload)
    × (plain.b64url_decode sig64 ≡ some (plain.hmac secret payload))
    × (plain.from_utf8 payload ≡ some text)
    × (partition colon text ≡ (expiry_text, alice))
    × (plain.read_int expiry_text ≡ some expiry)
    × (30 ≤ expiry)
verify_token_authentic_example = verify_token_authentic plain secret 30 token alice token_accepted

abbrev knows : Text → Except Bool
knows session = ok (compare_digest session alice)

token_confirmed : verify_token_async plain secret 30 token (some knows) ≡ some alice
unfolding verify_token_async compare_digest
token_confirmed = rw token_accepted
