-- ===== src/Mcp.antt =====
-- aqr/mcp/protocol.py and aqr/mcp/server.py: the dispatch of JSON-RPC methods. A parameter of a request
-- is a text or a number (a threshold counts millionths); `mistyped` is the exception of the code behind
-- a value of the other type. A reply is the dict that goes out; a message keeps its fixed part.
pub mod Protocol
pub mod Wellformed
mod Examples
use pigeon_trade.Common.{
  ℕ, String, Bool, true, false, Option, none, some, List, [], ◌∷◌, map, any, ◌==◌, if◌then◌else◌,
}
use pigeon_trade.Common.Dict.{Dict, lookup, contains}
use pigeon_trade.Common.Except.{Except, ok, raise, ◌>>=◌}
use pigeon_trade.Research.{ℤ}
use pigeon_trade.Data.{Frame, Float, Bar}
use pigeon_trade.Data.Adapter.{Client, resolve_figi, candles}
use pigeon_trade.Registry.{Tables, Ordering}
use pigeon_trade.Registry.Search.{search_similar}
use pigeon_trade.Storage.{Similar, similar_of}
use pigeon_trade.Mcp.Protocol.{
  Arg, str, num, Result, columns, figi, similar, RequestId, RpcResponse, McpError, method_not_found,
  invalid_params, internal_error, error_response, success_response,
}

abbrev text_arg : (Arg → String) → Arg → Except String
text_arg mistyped (str s) = ok s
text_arg mistyped (num n) = raise (mistyped (num n))

abbrev num_arg : (Arg → String) → Arg → Except ℕ
num_arg mistyped (num n) = ok n
num_arg mistyped (str s) = raise (mistyped (str s))

-- The signature of a handler: its parameters, with their defaults.
abbrev pub Signature : Type 0
Signature = List (String × Option Arg)

-- The keys of _methods.
pub data Method : Type 0 where
  get_candles resolve search find_duplicates : Method

unfoldable pub method_of : String → Option Method
method_of name =
    if name == "get_candles"
    then some get_candles
    else if name == "resolve_figi"
    then some resolve
    else if name == "search_similar"
    then some search
    else if name == "find_duplicates"
    then some find_duplicates
    else none

abbrev pub signature_of : Method → Signature
signature_of get_candles =
    ("ticker", none)
    ∷ ("from_date", some (str "2023-01-01"))
    ∷ ("to_date", some (str "2024-12-31"))
    ∷ ("interval", some (str "D1"))
    ∷ []
signature_of resolve = ("ticker", none) ∷ []
signature_of search =
    ("text", none) ∷ ("threshold", some (num 850000)) ∷ ("limit", some (num 5)) ∷ []
signature_of find_duplicates = ("text", none) ∷ ("threshold", some (num 920000)) ∷ []

-- The value of a parameter; without one and without a default the call raises.
abbrev pub given_or : Option Arg → Option Arg → Except Arg
given_or (some v) default = ok v
given_or none (some v) = ok v
given_or none none = raise "TypeError"

unfoldable pub arguments : Dict Arg → Signature → Except (List Arg)
arguments params [] = ok []
arguments params ((name, default) ∷ ps) = do
  v ← given_or (lookup name params) default
  vs ← arguments params ps
  ok (v ∷ vs)

-- Every key of the call is a parameter.
unfoldable pub all_known : Dict Arg → Signature → Bool
all_known [] sig = true
all_known ((k, v) ∷ params) sig = if any (λ p. p.0 == k) sig then all_known params sig else false

-- handler(**params): the values in the order of the signature
unfoldable pub bound : Dict Arg → Signature → Except (List Arg)
unfolding arguments all_known
bound params sig = if all_known params sig then arguments params sig else raise "TypeError"

-- The adapter's client, which its constructor may refuse, the database, the embedder and the time.
pub record Services : Type 1 where
  pub client : Except Client
  pub fromisoformat : String → Except ℕ
  pub embed : String → Except (List ℤ)
  pub database : Except Tables
  pub order : Ordering
  pub distance : List ℤ → List ℤ → ℕ
  pub rounded : ℕ → ℤ
  pub mistyped : Arg → String

-- df[col].tolist() of each column
abbrev columns_of : Frame → Result
columns_of f = columns (
    ("open", map (λ b. b.open_price) f.bars)
    ∷ ("high", map (λ b. b.high) f.bars)
    ∷ ("low", map (λ b. b.low) f.bars)
    ∷ ("close", map (λ b. b.close) f.bars)
    ∷ ("volume", map (λ b. b.volume) f.bars)
    ∷ [])

abbrev pub params_or_empty : Option (Dict Arg) → Dict Arg
params_or_empty none = []
params_or_empty (some params) = params

module _ (s : Services) where
  -- _search_similar
  abbrev pub search_handler : Arg → Arg → Arg → Except Result
  search_handler text threshold limit = do
    t ← text_arg s.mistyped text
    e ← s.embed t
    db ← s.database
    least ← num_arg s.mistyped threshold
    n ← num_arg s.mistyped limit
    ok (
        similar (
          map (similar_of s.order s.distance s.rounded)
            (search_similar s.order s.distance e least n db)))

  abbrev text_args : Arg → Arg → Arg → Arg → Except (String × String × String × String)
  text_args a b c d = do
    t ← text_arg s.mistyped a
    from ← text_arg s.mistyped b
    to ← text_arg s.mistyped c
    i ← text_arg s.mistyped d
    ok (t, from, to, i)

  -- _get_candles
  abbrev pub candles_handler : Arg → Arg → Arg → Arg → Dict String → Except Result × Dict String
  candles_handler a b c d figis = elim s.client [
    | raise e ↦ (raise e, figis)
    | ok client ↦ elim (text_args a b c d) [
      | raise e ↦ (raise e, figis)
      | ok (t, from, to, i) ↦
          let r = candles client s.fromisoformat t from to i figis in
          ((r.0 >>= λ f. ok (columns_of f)), r.1)
    ]
  ]

  -- _resolve_figi
  abbrev pub figi_handler : Arg → Dict String → Except Result × Dict String
  figi_handler a figis = elim s.client [
    | raise e ↦ (raise e, figis)
    | ok client ↦ elim (text_arg s.mistyped a) [
      | raise e ↦ (raise e, figis)
      | ok t ↦ let r = resolve_figi client t figis in ((r.0 >>= λ f. ok (figi f)), r.1)
    ]
  ]

  -- The handler of a method, on its bound arguments; `figis` is the module's _figi_cache.
  unfoldable pub handle : Method → List Arg → Dict String → Except Result × Dict String
  handle get_candles (a ∷ b ∷ c ∷ d ∷ []) figis = candles_handler a b c d figis
  handle resolve (a ∷ []) figis = figi_handler a figis
  handle search (a ∷ b ∷ c ∷ []) figis = (search_handler a b c, figis)
  -- limit=10
  handle find_duplicates (a ∷ b ∷ []) figis = (search_handler a b (num 10), figis)
  handle method args figis = (raise "TypeError", figis)

  abbrev pub called_with : Method → Except (List Arg) → Dict String → Except Result × Dict String
  called_with method (raise e) figis = (raise e, figis)
  called_with method (ok args) figis = handle method args figis

  -- await handler(**params)
  abbrev pub called : Method → Dict Arg → Dict String → Except Result × Dict String
  called method params figis = called_with method (bound params (signature_of method)) figis

  abbrev pub answer_to : Option RequestId → Except Result → RpcResponse
  answer_to id (ok r) = success_response r id
  answer_to id (raise e) =
      if e == "TypeError"
      then error_response invalid_params id
      else error_response internal_error id

  abbrev pub dispatched :
      Option Method → Dict Arg → Option RequestId → Dict String → RpcResponse × Dict String
  dispatched none params id figis = (error_response method_not_found id, figis)
  dispatched (some m) params id figis = let r = called m params figis in (answer_to id r.0, r.1)

  -- MCPHandler.dispatch
  unfoldable pub dispatch :
      String → Option (Dict Arg) → Option RequestId → Dict String → RpcResponse × Dict String
  unfolding bound handle method_of
  dispatch method params id figis = dispatched (method_of method) (params_or_empty params) id figis
