-- ===== src/Mcp/Examples.antt =====
-- Requests to a server whose database is empty and whose market service refuses its token.
use pigeon_trade.Common.{none, some, [], ◌∷◌, ◌≡◌, refl}
use pigeon_trade.Common.Dict.{lookup}
use pigeon_trade.Common.Except.{ok, raise}
use pigeon_trade.Common.Sort.{sort_desc, sort_desc-IsDescending, sort_desc-perm}
use pigeon_trade.Research.{pos}
use pigeon_trade.Registry.{Ordering}
use pigeon_trade.Mcp.Protocol.{Arg, str, int_id}
use pigeon_trade.Mcp.{Services, get_candles, method_of, dispatch}
use pigeon_trade.Mcp.Wellformed.{IsResponse, dispatch-IsResponse}

abbrev stable : Ordering
stable = record {
  desc = sort_desc;
  desc-IsDescending = sort_desc-IsDescending;
  desc-perm = sort_desc-perm;
}

abbrev quiet : Services
quiet = record {
  client = raise "RuntimeError";
  fromisoformat = λ s. ok 0;
  embed = λ s. ok (pos 1 ∷ []);
  database =
      ok (record { sessions = []; messages = []; runs = []; hypotheses = []; settings = [] });
  order = stable;
  distance = λ v w. 0;
  rounded = λ d. pos d;
  mistyped = λ a. "AttributeError";
}

dispatch-IsResponse_example :
    IsResponse
      (some (int_id 7))
      (dispatch quiet "search_similar" (some (("text", str "SMA") ∷ [])) (some (int_id 7)) []).0
dispatch-IsResponse_example =
    dispatch-IsResponse quiet "search_similar" (some (("text", str "SMA") ∷ [])) (some (int_id 7))
      []

known : method_of "get_candles" ≡ some get_candles
unfolding method_of
known = refl

no_ticker : lookup {V = Arg} "ticker" (("interval", str "D1") ∷ []) ≡ none
unfolding lookup
no_ticker = refl
