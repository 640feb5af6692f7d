-- ===== src/Data/Loading.antt =====
-- aqr/tools/core.py: load_prices, through the cache and the adapter. The fetches of asyncio.gather
-- stand in the order of the list; each writes the rows of its own ticker. The safety net behind
-- them only writes to the log.
pub mod Answers
pub mod Sources
use pigeon_trade.Common.{
  ℕ, String, Bool, true, false, Option, none, some, List, [], ◌∷◌, map, length, ltb, leb,
  if◌then◌else◌,
}
use pigeon_trade.Common.Dict.{Dict, insert}
use pigeon_trade.Common.Except.{Except, ok, raise, ◌>>=◌, or_else}
use pigeon_trade.Data.{Float, nan, Bar, Frame, Stored, Table}
use pigeon_trade.Data.Cache.{OhlcvCache, get_cached, put_cache}
use pigeon_trade.Data.Adapter.{TInvestAdapter, Client, candles}

-- MIN_CACHED_ROWS
abbrev pub min_cached_rows : ℕ
min_cached_rows = 100

-- The file of the cache, and the FIGIs that the adapter's class keeps.
pub record Stores (Db : Type 0) : Type 0 where
  pub cache : OhlcvCache Db
  pub figis : Dict String

abbrev close_or_nan : Option Float → Float
close_or_nan none = nan
close_or_nan (some x) = x

-- df["close"].astype(float), of a frame
abbrev pub frame_closes : Frame → List Float
frame_closes df = map (λ b. close_or_nan b.close) df.bars

-- The closes of the cached rows, if there are enough.
abbrev pub usable : Option (List (ℕ × Stored)) → Option (List Float)
usable none = none
usable (some rows) =
    if leb min_cached_rows (length rows) then some (map (λ r. r.1.close) rows) else none

-- {**d, **pairs}
unfoldable pub update : Dict (List Float) → List (String × List Float) → Dict (List Float)
update d [] = d
update d ((t, xs) ∷ pairs) = update (insert t xs d) pairs

-- The loop over zip(needs_remote, results): the pairs, or the error of the first failure.
unfoldable pub check_results :
    List (String × Except (List Float)) → Except (List (String × List Float))
check_results [] = ok []
check_results ((t, raise e) ∷ results) = raise "RuntimeError"
check_results ((t, ok xs) ∷ results) = do rest ← check_results results; ok ((t, xs) ∷ rest)

module _ {Db : Type 0} (table : Table Db) (fromisoformat : String → Except ℕ) (clock : String → ℕ)
    (start_date end_date timeframe : String) where
  -- The first stage: the cached series, and the tickers that need the service.
  unfoldable pub split_cached :
      List String
      → Dict (List Float)
      → OhlcvCache Db
      → Dict (List Float) × List String × OhlcvCache Db
  split_cached [] cached c = (cached, [], c)
  split_cached (t ∷ ts) cached c =
      let (df, c') = get_cached table t start_date end_date timeframe c in
      elim (usable df) [
        | some xs ↦ split_cached ts (insert t xs cached) c'
        | none ↦ let (found, needs, c'') = split_cached ts cached c' in (found, t ∷ needs, c'')
      ]

  abbrev written : ℕ × OhlcvCache Db → OhlcvCache Db
  written (n, c) = c

  -- cache.put_cache, whose exceptions are logged
  abbrev write : String → Frame → OhlcvCache Db → OhlcvCache Db
  write t df c = or_else (put_cache table (clock t) t df timeframe c >>= λ r. ok (written r)) c

  abbrev pub checked_length : Frame → Except (List Float)
  checked_length df =
      if ltb (length df.bars) min_cached_rows then raise "ValueError" else ok (frame_closes df)

  abbrev stored_from : String → OhlcvCache Db → Except Frame → OhlcvCache Db
  stored_from t c (raise e) = c
  stored_from t c (ok df) = if ltb (length df.bars) min_cached_rows then c else write t df c

  -- _fetch_one
  unfoldable pub fetch_one : Client → String → Stores Db → Except (List Float) × Stores Db
  fetch_one client t s =
      let (df, figis) = candles client fromisoformat t start_date end_date timeframe s.figis in
      (df >>= checked_length, record { cache = stored_from t s.cache df; figis = figis })

  -- asyncio.gather(..., return_exceptions=True)
  unfoldable pub fetch_all :
      Client → List String → Stores Db → List (String × Except (List Float)) × Stores Db
  unfolding fetch_one
  fetch_all client [] s = ([], s)
  fetch_all client (t ∷ ts) s =
      let (r, s') = fetch_one client t s in
      let (rs, s'') = fetch_all client ts s' in ((t, r) ∷ rs, s'')

  abbrev pub fetch_remote :
      (TInvestAdapter → Client)
      → Except TInvestAdapter
      → List String
      → Stores Db
      → Except (List (String × List Float)) × Stores Db
  fetch_remote connect made [] s = (ok [], s)
  fetch_remote connect (raise e) (t ∷ ts) s = (raise e, s)
  fetch_remote connect (ok adapter) (t ∷ ts) s =
      let (results, s') = fetch_all (connect adapter) (t ∷ ts) s in (check_results results, s')

  -- load_prices: `made` is TInvestAdapter(), `connect` the service that it talks to.
  unfoldable pub load_prices :
      (TInvestAdapter → Client)
      → Except TInvestAdapter
      → List String
      → Stores Db
      → Except (Dict (List Float)) × Stores Db
  unfolding split_cached fetch_all check_results update
  load_prices connect made tickers s =
      let (cached, needs, c) =
        split_cached tickers [] (record { initialized = false; db = s.cache.db }) in
      let (remote, s') = fetch_remote connect made needs (record s { cache = c }) in
      (remote >>= λ pairs. ok (update cached (update [] pairs)), s')
