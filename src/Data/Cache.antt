-- ===== src/Data/Cache.antt =====
-- aqr/data/ohlcv_cache.py: OhlcvCache. Each method runs under the process's lock, so that it is
-- one step.
pub mod Rows
pub mod RoundTrip
use pigeon_trade.Common.{
  ℕ, zero, suc, ◌+◌, String, Bool, true, false, ◌&&◌, Option, none, some, List, [], ◌∷◌, length,
  any, leb, ◌==◌, eqb, eqb_iff, eq_iff, if◌then◌else◌, ◌≡◌, refl, arith,
}
use pigeon_trade.Common.Except.{Except, ok, raise, ◌>>=◌}
use pigeon_trade.Data.{Float, nan, infinite, finite, Bar, Frame, Stored, at, Table, TableLaws}

-- _safe_float, of a cell that is a number or None
unfoldable pub safe_float : Option Float → Option ℕ
safe_float none = none
safe_float (some nan) = none
safe_float (some infinite) = none
safe_float (some (finite x)) = some x

-- The volume's cell: int(...) of an infinity raises.
abbrev pub volume_of : Option Float → Except (Option ℕ)
volume_of none = ok none
volume_of (some nan) = ok none
volume_of (some infinite) = raise "OverflowError"
volume_of (some (finite x)) = ok (some x)

abbrev pub stored : ℕ → Bar → Float → Option ℕ → Stored
stored now bar close volume = record {
  open_price = safe_float bar.open_price;
  high = safe_float bar.high;
  low = safe_float bar.low;
  close = close;
  volume = volume;
  value = safe_float bar.value;
  fetched_at = now;
}

-- The row to insert for a bar; `none` for a bar without a close.
abbrev pub row_of : ℕ → Bar → Option Float → Except (Option Stored)
row_of now bar none = ok none
row_of now bar (some nan) = ok none
row_of now bar (some infinite) =
    volume_of bar.volume >>= λ volume. ok (some (stored now bar infinite volume))
row_of now bar (some (finite x)) =
    volume_of bar.volume >>= λ volume. ok (some (stored now bar (finite x) volume))

abbrev pub kept : ℕ → Option Stored → List (ℕ × Stored) → List (ℕ × Stored)
kept t none rows = rows
kept t (some row) rows = (t, row) ∷ rows

-- The loop over df.iterrows()
unfoldable pub rows_of : ℕ → List ℕ → List Bar → Except (List (ℕ × Stored))
unfolding safe_float
rows_of now [] bars = ok []
rows_of now (t ∷ ts) [] = ok []
rows_of now (t ∷ ts) (bar ∷ bars) = do
  row ← row_of now bar bar.close
  rest ← rows_of now ts bars
  ok (kept t row rest)

-- The index that df has or is given.
unfoldable pub times_of : Frame → Except (List ℕ)
times_of df = elim df.index [
  | some ts ↦ ok ts
  | none ↦ elim df.begin [
    | some ts ↦ ok ts
    | none ↦ elim df.time [ some ts ↦ ok ts | none ↦ raise "ValueError" ]
  ]
]

-- 2 ** 63 and more: no BIGINT
abbrev pub is_large : Option ℕ → Bool
is_large none = false
is_large (some v) = leb 9223372036854775808 v

abbrev pub too_large : ℕ × Stored → Bool
too_large (t, row) = is_large row.volume

-- An OhlcvCache, with the file that it reads and writes.
pub record OhlcvCache (Db : Type 0) : Type 0 where
  pub initialized : Bool
  pub db : Db

module _ {Db : Type 0} (table : Table Db) where
  -- _ensure_schema
  unfoldable pub ensure_schema : OhlcvCache Db → OhlcvCache Db
  ensure_schema c =
      if c.initialized then c else record { initialized = true; db = table.create_schema c.db }

  -- get_cached
  unfoldable pub get_cached :
      String → String → String → String → OhlcvCache Db → Option (List (ℕ × Stored)) × OhlcvCache Db
  unfolding ensure_schema
  get_cached ticker start end timeframe c =
      let c' = ensure_schema c in
      if eqb (table.count_between ticker timeframe start end c'.db) 0
      then (none, c')
      else (some (table.select ticker timeframe start end c'.db), c')

  unfoldable pub upsert_all : String → String → List (ℕ × Stored) → Db → Db
  upsert_all ticker timeframe [] db = db
  upsert_all ticker timeframe ((t, row) ∷ rows) db =
      upsert_all ticker timeframe rows (table.upsert ticker timeframe t row db)

  -- conn.executemany(INSERT ... ON CONFLICT ... DO UPDATE): DuckDB refuses an empty list, and a volume
  -- that is no BIGINT.
  unfoldable pub executemany : String → String → List (ℕ × Stored) → Db → Except Db
  unfolding upsert_all any
  executemany ticker timeframe [] db = raise "InvalidInputException"
  executemany ticker timeframe (r ∷ rows) db =
      if any too_large (r ∷ rows)
      then raise "ConversionException"
      else ok (upsert_all ticker timeframe (r ∷ rows) db)

  -- put_cache; `now` is the time of the call
  unfoldable pub put_cache :
      ℕ → String → Frame → String → OhlcvCache Db → Except (ℕ × OhlcvCache Db)
  unfolding ensure_schema executemany times_of rows_of
  put_cache now ticker df timeframe c =
      let c' = ensure_schema c in
      if eqb (length df.bars) 0 then ok (0, c') else (do
        ts ← times_of df
        rows ← rows_of now ts df.bars
        db ← executemany ticker timeframe rows c'.db
        ok (length rows, record c' { db = db }))

  -- invalidate
  unfoldable pub invalidate : Option String → OhlcvCache Db → ℕ × OhlcvCache Db
  unfolding ensure_schema
  invalidate none c =
      let c' = ensure_schema c in (table.count_all c'.db, record c' { db = table.delete_all c'.db })
  invalidate (some ticker) c =
      let c' = ensure_schema c in
      (table.count_ticker ticker c'.db, record c' { db = table.delete_ticker ticker c'.db })

  -- stats: the number of tickers and that of rows
  unfoldable pub stats : OhlcvCache Db → (ℕ × ℕ) × OhlcvCache Db
  unfolding ensure_schema
  stats c = let c' = ensure_schema c in ((table.count_tickers c'.db, table.count_all c'.db), c')
