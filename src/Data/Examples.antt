-- ===== src/Data/Examples.antt =====
-- The theorems on aqr/data and load_prices at a table that keeps the rows of ten times as a function.
use pigeon_trade.Common.{
  ℕ, zero, suc, String, true, false, ◌&&◌, Option, none, some, List, [], ◌∷◌, length, All, ltb, eqb,
  eqb_iff, ◌==◌, if◌then◌else◌, ◌≡◌, refl, arith, keep,
}
use pigeon_trade.Common.Dict.{lookup, insert}
use pigeon_trade.Common.Except.{Except, ok}
use pigeon_trade.Data.{finite, Bar, Frame, Stored, at, Table, TableLaws}
use pigeon_trade.Data.Adapter.{
  TInvestAdapter, Client, Candle, resolve_figi, candles, uncached, IsConsistent,
}
use pigeon_trade.Data.Adapter.FigiCache.{candles-uncached}
use pigeon_trade.Data.Loading.{load_prices}
use pigeon_trade.Data.Loading.Answers.{Settles}
use pigeon_trade.Data.Loading.Sources.{series, load_prices_lem}
use pigeon_trade.Data.Cache.{OhlcvCache, put_cache, times_of}
use pigeon_trade.Data.Cache.Rows.{either, last_close, HasVolume}
use pigeon_trade.Data.Cache.RoundTrip.{cached_close, get_cached-put_cache}

abbrev Rows : Type 0
Rows = String → String → ℕ → Option Stored

-- The rows at the times below `n`, the latest first.
abbrev listed : (ℕ → Option Stored) → ℕ → List (ℕ × Stored)
listed row zero = []
listed row (suc n) = elim (row n) [ none ↦ listed row n | some r ↦ (n, r) ∷ listed row n ]

abbrev upserted : String → String → ℕ → Stored → Rows → Rows
upserted k f t row db k' f' t' = if k == k' && f == f' && eqb t t' then some row else db k' f' t'

abbrev ten_rows : Table Rows
ten_rows = record {
  create_schema = λ db. db;
  select = λ k f start end db. listed (db k f) 10;
  count_between = λ k f start end db. length (listed (db k f) 10);
  upsert = upserted;
  count_all = λ db. 0;
  count_ticker = λ k db. 0;
  count_tickers = λ db. 0;
  delete_all = λ db k f t. none;
  delete_ticker = λ k db k' f t. if k == k' then none else db k' f t;
}

at-listed :
    (row : ℕ → Option Stored) (n t : ℕ) → at t (listed row n) ≡ (if ltb t n then row t else none)
at-listed row zero t = ground arith
at-listed row (suc n) t = ground (arith, at-listed row n t, eqb_iff n t)

abbrev ten_rows_laws : TableLaws ten_rows
ten_rows_laws = record {
  find = λ k f t db. db k f t;
  within = λ start end t. ltb t 10;
  find-create_schema = λ k f t db. refl;
  at-select = λ k f start end t db. at-listed (db k f) 10 t;
  count_between_lem = λ k f start end db. refl;
  find-upsert = λ k f k' f' t t' row db. refl;
  find-delete_all = λ k f t db. refl;
  find-delete_ticker = λ k k' f t db. refl;
}

abbrev bar : ℕ → Bar
bar x = record {
  open_price = none;
  high = none;
  low = none;
  close = some (finite x);
  volume = some (finite 7);
  value = none;
}

abbrev two_bars : Frame
two_bars = record {
  index = some (3 ∷ 4 ∷ []);
  begin = none;
  time = none;
  bars = bar 100 ∷ bar 101 ∷ [];
}

abbrev empty_cache : OhlcvCache Rows
empty_cache = record { initialized = false; db = λ k f t. none }

two_bars-HasVolume : All HasVolume two_bars.bars
two_bars-HasVolume = (omega arith, (omega arith, tt))

get_cached-put_cache_example :
    (n : ℕ) × (c' : OhlcvCache Rows) × (put_cache ten_rows 9 "SBER" two_bars "D1" empty_cache
      ≡ ok (n, c'))
    × (n ≡ 2)
    × ((k' f' start end : String) (t : ℕ)
        → cached_close ten_rows ten_rows_laws k' start end f' t c' ≡ (
            if "SBER" == k' && "D1" == f' && ltb t 10
            then either
                (last_close t (3 ∷ 4 ∷ []) two_bars.bars)
                (cached_close ten_rows ten_rows_laws k' start end f' t empty_cache)
            else cached_close ten_rows ten_rows_laws k' start end f' t empty_cache))
unfolding times_of
get_cached-put_cache_example =
    get_cached-put_cache ten_rows ten_rows_laws 9 "SBER" "D1" two_bars (3 ∷ 4 ∷ []) empty_cache refl
      two_bars-HasVolume (omega arith)

abbrev candle : Candle
candle = record {
  time = 3;
  open_price = record { units = 1; nano = 0 };
  high = record { units = 1; nano = 0 };
  low = record { units = 1; nano = 0 };
  close = record { units = 1; nano = 5 };
  volume = 7;
}

-- A service with one share in two modes, which has one candle of it.
abbrev one_share : Client
one_share = record {
  find_instrument = λ query.
      ok (
        record { ticker = "SBER"; figi = "TCS1" } ∷ record { ticker = "SBER"; figi = "BBG1" } ∷ []);
  get_candles = λ figi from to interval. ok (candle ∷ []);
}

abbrev any_time : String → Except ℕ
any_time s = ok 0

figi_run : resolve_figi one_share "SBER" [] ≡ (ok "BBG1", ("SBER", "BBG1") ∷ [])
unfolding resolve_figi lookup keep insert
figi_run = refl

no_figis-IsConsistent : IsConsistent one_share []
unfolding lookup
no_figis-IsConsistent ticker figi e = cc

candles-uncached_example :
    ((candles one_share any_time "SBER" "2024-01-01" "2024-02-01" "D1" []).0
      ≡ uncached one_share any_time "SBER" "2024-01-01" "2024-02-01" "D1")
    × IsConsistent one_share (candles one_share any_time "SBER" "2024-01-01" "2024-02-01" "D1" []).1
candles-uncached_example =
    candles-uncached one_share any_time "SBER" "2024-01-01" "2024-02-01" "D1" []
      no_figis-IsConsistent

abbrev sample_adapter : TInvestAdapter
sample_adapter = record { token = "t"; sandbox = true; target = "api" }

load_prices_lem_example :
    Settles
      (series ten_rows any_time
        (λ t. 9)
        "2024-01-01"
        "2024-02-01"
        "D1"
        (λ a. one_share)
        empty_cache
        sample_adapter)
      ("SBER" ∷ [])
      (load_prices ten_rows any_time
        (λ t. 9)
        "2024-01-01"
        "2024-02-01"
        "D1"
        (λ a. one_share)
        (ok sample_adapter)
        ("SBER" ∷ [])
        (record { cache = empty_cache; figis = [] })).0
load_prices_lem_example =
    load_prices_lem ten_rows any_time (λ t. 9) "2024-01-01" "2024-02-01" "D1" (λ a. one_share)
      sample_adapter ("SBER" ∷ []) (record { cache = empty_cache; figis = [] })
      no_figis-IsConsistent
