-- ===== src/Data.antt =====
-- aqr/data: the price cache on DuckDB (Cache), the T-Invest adapter (Adapter), and load_prices of
-- aqr/tools/core.py, which reads through the one to the other (Loading). Times are numbers, and a
-- price counts least price steps. This module has the data that they share and the interface of
-- the cache's table; DuckDB itself is a parameter.
pub mod Cache
pub mod Adapter
pub mod Loading
mod Examples
use pigeon_trade.Common.{
  ℕ, String, Bool, true, false, ◌&&◌, Option, none, some, List, [], ◌∷◌, length, ◌==◌, eqb,
  if◌then◌else◌, ◌≡◌,
}
use pigeon_trade.Common.Except.{Except, ok, raise}

-- A float: NaN, an infinity or a number.
pub data Float : Type 0 where
  nan : Float
  infinite : Float
  finite : ℕ → Float

-- A row of a DataFrame; `none` for a missing column and for None.
pub record Bar : Type 0 where
  pub open_price : Option Float
  pub high : Option Float
  pub low : Option Float
  pub close : Option Float
  pub volume : Option Float
  pub value : Option Float

-- A DataFrame: its DatetimeIndex, if it has one, its columns begin and time, and its rows.
pub record Frame : Type 0 where
  pub index : Option (List ℕ)
  pub begin : Option (List ℕ)
  pub time : Option (List ℕ)
  pub bars : List Bar

-- The columns of the table ohlcv behind its key (ticker, timeframe, begin).
pub record Stored : Type 0 where
  pub open_price : Option ℕ
  pub high : Option ℕ
  pub low : Option ℕ
  pub close : Float
  pub volume : Option ℕ
  pub value : Option ℕ
  pub fetched_at : ℕ

-- The row at a time in the answer to a query.
abbrev pub at {ℓ} : {A : Type ℓ} → ℕ → List (ℕ × A) → Option A
at t [] = none
at t ((u, a) ∷ rows) = if eqb u t then some a else at t rows

-- The statements that the cache sends, on a database `Db`, with the ticker, the timeframe and the
-- time as the key; `select` is the query of the rows with `begin BETWEEN start AND end`, in the
-- order of begin, and `count_between` counts them.
pub record Table (Db : Type 0) : Type 0 where
  pub create_schema : Db → Db
  pub select : String → String → String → String → Db → List (ℕ × Stored)
  pub count_between : String → String → String → String → Db → ℕ
  pub upsert : String → String → ℕ → Stored → Db → Db
  pub count_all : Db → ℕ
  pub count_ticker : String → Db → ℕ
  pub count_tickers : Db → ℕ
  pub delete_all : Db → Db
  pub delete_ticker : String → Db → Db

-- What the cache relies on: `find` is the row of the table under a key, and `within` the test that
-- BETWEEN makes of a time.
pub record TableLaws {Db : Type 0} (table : Table Db) : Type 0 where
  pub find : String → String → ℕ → Db → Option Stored
  pub within : String → String → ℕ → Bool
  pub find-create_schema :
      (k f : String) (t : ℕ) (db : Db) → find k f t (table.create_schema db) ≡ find k f t db
  pub at-select :
      (k f start end : String) (t : ℕ) (db : Db)
      → at t (table.select k f start end db) ≡ (if within start end t then find k f t db else none)
  pub count_between_lem :
      (k f start end : String) (db : Db)
      → table.count_between k f start end db ≡ length (table.select k f start end db)
  pub find-upsert :
      (k f k' f' : String) (t t' : ℕ) (row : Stored) (db : Db)
      → find k' f' t' (table.upsert k f t row db)
        ≡ (if k == k' && f == f' && eqb t t' then some row else find k' f' t' db)
  pub find-delete_all : (k f : String) (t : ℕ) (db : Db) → find k f t (table.delete_all db) ≡ none
  pub find-delete_ticker :
      (k k' f : String) (t : ℕ) (db : Db)
      → find k' f t (table.delete_ticker k db) ≡ (if k == k' then none else find k' f t db)
