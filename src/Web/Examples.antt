-- ===== src/Web/Examples.antt =====
-- The rate limit and the form at concrete requests.
use pigeon_trade.Common.{
  ℕ, ◌+◌, ◌-◌, ◌*◌, ◌≤◌, Option, none, some, String, List, [], ◌∷◌, ◌++◌, map, sym, arith,
}
use pigeon_trade.Common.Except.{ok}
use pigeon_trade.Auth.{Text, Crypto, sign_session}
use pigeon_trade.Registry.Settings.{Cipher, IsSound}
use pigeon_trade.Web.RateLimit.{token, granted}
use pigeon_trade.Web.RateLimit.Bound.{finish, granted-le}
use pigeon_trade.Web.Settings.{Site, Form, Reply, verified, settings_save}
use pigeon_trade.Web.Settings.Saved.{Outcome, settings_save-Outcome}

-- Six requests of an address in a second, one of another, and one half a minute later.
abbrev burst : List (String × ℕ)
burst =
    ("10.0.0.1", 1000)
    ∷ ("10.0.0.1", 1100)
    ∷ ("10.0.0.1", 1200)
    ∷ ("10.0.0.2", 1300)
    ∷ ("10.0.0.1", 1400)
    ∷ ("10.0.0.1", 1500)
    ∷ ("10.0.0.1", 1600)
    ∷ ("10.0.0.1", 31600)
    ∷ []

granted-le_example : token * granted "10.0.0.1" burst [] ≤ 5 * token + (finish 1000 burst - 1000)
granted-le_example = granted-le "10.0.0.1" 1000 burst [] tt (omega arith)

abbrev read_first : Text → Option ℕ
read_first [] = none
read_first (c ∷ t) = some (c - 100)

abbrev shifting : Crypto
shifting = record {
  hmac = λ key payload. key ++ payload;
  b64url_encode = map (λ c. c + 100);
  b64url_decode = λ t. some (map (λ c. c - 100) t);
  utf8 = λ t. t;
  from_utf8 = λ t. some t;
  decimal = λ n. (n + 100) ∷ [];
  read_int = read_first;
}

abbrev open_cipher : Cipher
open_cipher = record { encrypt_str = λ s. ok s; decrypt_str = λ s. ok s }

open_cipher-IsSound : IsSound open_cipher
open_cipher-IsSound plain encrypted e = sym e

abbrev key : Text
key = 7 ∷ []

abbrev alice : Text
alice = 97 ∷ []

abbrev as_codes : String → Text
as_codes s = alice

abbrev as_text : Text → String
as_text t = "alice"

abbrev form : Form
form = record {
  llm_model = "gpt";
  llm_api_key = "k1";
  openai_api_key = "k2";
  invest_token = "t";
  invest_sandbox = "on";
}

abbrev new_site : Site
new_site = record {
  db = record { sessions = []; messages = []; runs = []; hypotheses = []; settings = [] };
  buckets = [];
}

abbrev reply_to_alice : Reply × Site
reply_to_alice =
    settings_save shifting key as_codes as_text open_cipher "10.0.0.1" 1000 30
      (sign_session shifting key 10 25 alice) form new_site

settings_save-Outcome_example :
    Outcome shifting key as_codes as_text open_cipher
      (verified shifting key as_codes as_text 30 (sign_session shifting key 10 25 alice))
      form
      new_site.db
      "alice"
      reply_to_alice.0
      reply_to_alice.1.db
settings_save-Outcome_example =
    settings_save-Outcome shifting key as_codes as_text open_cipher open_cipher-IsSound "10.0.0.1"
      1000 30 (sign_session shifting key 10 25 alice) form new_site "alice"
