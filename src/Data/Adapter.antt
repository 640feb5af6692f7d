-- ===== src/Data/Adapter.antt =====
-- aqr/data/tinvest.py: TInvestAdapter. The service behind t_tech.invest is a parameter, Client,
-- and so is the reading of an ISO time. Prices are not negative and count billionths.
pub mod FigiCache
use text.Mathlib.Text.{starts_with, find?}
use Prim.Native.String.{◌++◌ as text_append}
use pigeon_trade.Common.{
  ℕ, zero, suc, ◌+◌, ◌*◌, String, Bool, true, false, not, Option, none, some, List, [], ◌∷◌, map,
  keep, ◌==◌, eq_iff, eq_refl, leb, if◌then◌else◌, ◌≡◌, ◌⊎◌, inl, inr, refl, arith,
}
use pigeon_trade.Common.Dict.{Dict, lookup, insert, contains}
use pigeon_trade.Common.Except.{Except, ok, raise, ◌>>=◌}
use pigeon_trade.Credentials.{Settings, env_or}
use pigeon_trade.Data.{Float, finite, Bar, Frame}

-- INTERVAL_MAP
abbrev pub interval_map : Dict String
interval_map =
    ("1m", "CANDLE_INTERVAL_1_MIN")
    ∷ ("5m", "CANDLE_INTERVAL_5_MIN")
    ∷ ("15m", "CANDLE_INTERVAL_15_MIN")
    ∷ ("H1", "CANDLE_INTERVAL_HOUR")
    ∷ ("D1", "CANDLE_INTERVAL_DAY")
    ∷ ("W", "CANDLE_INTERVAL_WEEK")
    ∷ ("M", "CANDLE_INTERVAL_MONTH")
    ∷ ("2m", "CANDLE_INTERVAL_2_MIN")
    ∷ ("3m", "CANDLE_INTERVAL_3_MIN")
    ∷ ("10m", "CANDLE_INTERVAL_10_MIN")
    ∷ ("30m", "CANDLE_INTERVAL_30_MIN")
    ∷ ("2H", "CANDLE_INTERVAL_2_HOUR")
    ∷ ("4H", "CANDLE_INTERVAL_4_HOUR")
    ∷ []

pub record TInvestAdapter : Type 0 where
  pub token : String
  pub sandbox : Bool
  pub target : String

abbrev or_env_token : Option String → Dict String → Except String
or_env_token (some token) env = ok token
or_env_token none env = elim (lookup "INVEST_TOKEN" env) [
  | some token ↦ ok token
  | none ↦ raise "RuntimeError"
]

abbrev or_env_sandbox : Option Bool → Dict String → Bool
or_env_sandbox (some sandbox) env = sandbox
or_env_sandbox none env = not (env_or env "INVEST_SANDBOX" "1" == "0")

-- The token and the sandbox flag before the environment is asked.
abbrev given : Option String → Option Bool → Option Settings → Option String × Option Bool
given (some token) sandbox creds = (some token, sandbox)
given none sandbox (some creds) = (some creds.invest_token, some creds.invest_sandbox)
given none sandbox none = (none, sandbox)

-- os.getenv("INVEST_GRPC_API") or ti.constants.INVEST_GRPC_API
abbrev target_of : Dict String → String → String
target_of env default =
    let api = env_or env "INVEST_GRPC_API" "" in if api == "" then default else api

-- __init__; `creds` is current_credentials(), `default` the constant of t_tech.invest
unfoldable pub adapter :
    Option String → Option Bool → Option Settings → Dict String → String → Except TInvestAdapter
adapter token sandbox creds env default = do
  found ← or_env_token (given token sandbox creds).0 env
  ok (record {
    token = found;
    sandbox = or_env_sandbox (given token sandbox creds).1 env;
    target = target_of env default;
  })

-- A price: whole units and billionths.
pub record Quotation : Type 0 where
  pub units : ℕ
  pub nano : ℕ

pub record Candle : Type 0 where
  pub time : ℕ
  pub open_price : Quotation
  pub high : Quotation
  pub low : Quotation
  pub close : Quotation
  pub volume : ℕ

pub record Instrument : Type 0 where
  pub ticker : String
  pub figi : String

-- What t_tech.invest answers: find_instrument and get_candles, with the adapter's token and target.
pub record Client : Type 0 where
  pub find_instrument : String → Except (List Instrument)
  pub get_candles : String → ℕ → ℕ → String → Except (List Candle)

-- _quotation_to_float
unfoldable pub quotation_to_float : Quotation → Float
quotation_to_float q = finite (q.units * 1000000000 + q.nano)

abbrev bar_of : Candle → ℕ × Bar
bar_of c = (
  c.time,
  record {
    open_price = some (quotation_to_float c.open_price);
    high = some (quotation_to_float c.high);
    low = some (quotation_to_float c.low);
    close = some (quotation_to_float c.close);
    volume = some (finite c.volume);
    value = none;
  },
)

-- df.sort_index()
unfoldable pub insert_by_time : ℕ × Bar → List (ℕ × Bar) → List (ℕ × Bar)
insert_by_time x [] = x ∷ []
insert_by_time x (y ∷ ys) =
    let rest = insert_by_time x ys in if leb x.0 y.0 then x ∷ y ∷ ys else y ∷ rest

unfoldable pub sort_index : List (ℕ × Bar) → List (ℕ × Bar)
unfolding insert_by_time
sort_index [] = []
sort_index (x ∷ xs) = insert_by_time x (sort_index xs)

-- _candles_to_dataframe
unfoldable pub candles_to_dataframe : List Candle → Frame
unfolding quotation_to_float sort_index
candles_to_dataframe candles =
    let rows = sort_index (map bar_of candles) in
    record {
      index = some (map (λ r. r.0) rows);
      begin = none;
      time = none;
      bars = map (λ r. r.1) rows;
    }

-- _parse_dt; `fromisoformat` reads an ISO time
abbrev pub parse_dt : (String → Except ℕ) → String → Except ℕ
parse_dt fromisoformat s = elim (find? s "T") [
  | some i ↦ fromisoformat s
  | none ↦ fromisoformat (text_append s "T00:00:00+00:00")
]

-- next((i.figi for i in instruments if i.figi.startswith("BBG")), default)
abbrev bloomberg : List Instrument → String → String
bloomberg [] default = default
bloomberg (i ∷ is) default =
    let rest = bloomberg is default in if starts_with i.figi "BBG" then i.figi else rest

abbrev preferred : List Instrument → Except String
preferred [] = raise "ValueError"
preferred (i ∷ is) = ok (bloomberg (i ∷ is) i.figi)

module _ (client : Client) where
  -- The part of _resolve_figi behind the cache.
  unfoldable pub find_figi : String → Except String
  find_figi ticker = do
    instruments ← client.find_instrument ticker
    preferred (keep (λ i. i.ticker == ticker) instruments)

  abbrev pub cached_figi : String → Dict String → Except String → Except String × Dict String
  cached_figi ticker figis (ok figi) = (ok figi, insert ticker figi figis)
  cached_figi ticker figis (raise e) = (raise e, figis)

  -- _resolve_figi, with the dict _figi_cache
  unfoldable pub resolve_figi : String → Dict String → Except String × Dict String
  unfolding find_figi
  resolve_figi ticker figis = elim (lookup ticker figis) [
    | some figi ↦ (ok figi, figis)
    | none ↦ cached_figi ticker figis (find_figi ticker)
  ]

  module _ (fromisoformat : String → Except ℕ) where
    abbrev pub fetched : String → String → String → Except String → Except Frame
    fetched from_date to_date enum figi = do
      f ← figi
      from ← parse_dt fromisoformat from_date
      to ← parse_dt fromisoformat to_date
      cs ← client.get_candles f from to enum
      ok (candles_to_dataframe cs)

    -- candles
    unfoldable pub candles :
        String → String → String → String → Dict String → Except Frame × Dict String
    unfolding resolve_figi candles_to_dataframe
    candles ticker from_date to_date interval figis = elim (lookup interval interval_map) [
      | none ↦ (raise "ValueError", figis)
      | some enum ↦
          let (figi, figis') = resolve_figi ticker figis in
          (fetched from_date to_date enum figi, figis')
    ]

    -- What candles answers when nothing is cached.
    abbrev pub uncached : String → String → String → String → Except Frame
    uncached ticker from_date to_date interval = elim (lookup interval interval_map) [
      | none ↦ raise "ValueError"
      | some enum ↦ fetched from_date to_date enum (find_figi ticker)
    ]

  -- Every FIGI in the cache is the one that the service answers.
  abbrev pub IsConsistent : Dict String → Type 0
  IsConsistent figis =
      (ticker figi : String) → lookup ticker figis ≡ some figi → find_figi ticker ≡ ok figi

-- clear_figi_cache
abbrev pub clear_figi_cache : Dict String → Dict String
clear_figi_cache figis = []
