-- ===== src/Data/Cache/RoundTrip.antt =====
-- aqr/data/ohlcv_cache.py: what get_cached reads behind put_cache and invalidate.
use pigeon_trade.Common.{
  Bool-cases, inl, inr, ℕ, String, ◌&&◌, Option, none, some, List, [], ◌∷◌, length, any, ◌≤◌, All,
  false, ◌==◌, eqb, eqb_iff, if◌then◌else◌, ◌≡◌, refl, sym, ap, ◌∙◌, arith,
}
use pigeon_trade.Common.Except.{Except, ok, raise, or_else, ◌>>=◌}
use pigeon_trade.Data.{Float, Frame, Stored, at, Table, TableLaws}
use pigeon_trade.Data.Cache.Rows.{
  either, close_of, last_close, count_closes, HasVolume, last_row, close_of-either, close_of-if,
  either_assoc, rows_of_ok, answer, names, no_rows,
}
use pigeon_trade.Data.Cache.{
  OhlcvCache, rows_of, times_of, ensure_schema, get_cached, upsert_all, executemany, too_large,
  put_cache, invalidate,
}

module _ {Db : Type 0} (table : Table Db) (laws : TableLaws table) where
  find-upsert_all :
      (k f k' f' : String) (t : ℕ) (rows : List (ℕ × Stored)) (db : Db)
      → laws.find k' f' t (upsert_all table k f rows db) ≡ (
          if k == k' && f == f'
          then either (last_row t rows) (laws.find k' f' t db)
          else laws.find k' f' t db)
  unfolding upsert_all
  find-upsert_all k f k' f' t [] db = ground arith
  find-upsert_all k f k' f' t ((u, row) ∷ rows) db = ground (
    arith,
    find-upsert_all k f k' f' t rows (table.upsert k f u row db),
    laws.find-upsert k f k' f' u t row db,
    either_assoc (last_row t rows) (eqb u t) row (laws.find k' f' t db),
  )

  -- The close under a key in the answer of get_cached.
  abbrev pub cached_close : String → String → String → String → ℕ → OhlcvCache Db → Option Float
  cached_close k start end f t c = answer t (get_cached table k start end f c).0

  at-empty : (t : ℕ) (rows : List (ℕ × Stored)) → length rows ≡ 0 → at t rows ≡ none
  at-empty t [] h = refl
  at-empty t (r ∷ rows) h = absurd (omega arith)

  abbrev fetched :
      List (ℕ × Stored) → ℕ → OhlcvCache Db → Option (List (ℕ × Stored)) × OhlcvCache Db
  fetched rows n c = if eqb n 0 then (none, c) else (some rows, c)

  answer_lem :
      (t : ℕ) (rows : List (ℕ × Stored)) (n : ℕ) (c : OhlcvCache Db)
      → n ≡ length rows
      → answer t (fetched rows n c).0 ≡ close_of (at t rows)
  answer_lem t [] n c h = ground arith
  answer_lem t (r ∷ rows) n c h = ground arith

  find-ensure_schema :
      (k f : String) (t : ℕ) (c : OhlcvCache Db)
      → laws.find k f t (ensure_schema table c).db ≡ laws.find k f t c.db
  unfolding ensure_schema
  find-ensure_schema k f t c = ground (arith, laws.find-create_schema k f t c.db)

  cached_close_lem :
      (k start end f : String) (t : ℕ) (c : OhlcvCache Db)
      → cached_close k start end f t c
        ≡ (if laws.within start end t then close_of (laws.find k f t c.db) else none)
  unfolding get_cached
  cached_close_lem k start end f t c =
      let c' = ensure_schema table c in
      let rows = table.select k f start end c'.db in
      answer_lem t rows (table.count_between k f start end c'.db) c'
        (laws.count_between_lem k f start end c'.db)
      ∙ rw (laws.at-select k f start end t c'.db) (
          rw (find-ensure_schema k f t c)
            (close_of-if (laws.within start end t) (laws.find k f t c.db)))

  -- The state behind the insertion of these rows.
  abbrev inserted : String → String → List (ℕ × Stored) → OhlcvCache Db → OhlcvCache Db
  inserted k f rows c =
      let c' = ensure_schema table c in record c' { db = upsert_all table k f rows c'.db }

  executemany_ok :
      (k f : String) (rows : List (ℕ × Stored)) (db : Db)
      → 1 ≤ length rows
      → any too_large rows ≡ false
      → executemany table k f rows db ≡ ok (upsert_all table k f rows db)
  unfolding executemany
  executemany_ok k f [] db h e = absurd (omega arith)
  executemany_ok k f (r ∷ rows) db h e = rw e refl

  abbrev counted_after : ℕ → OhlcvCache Db → Db → Except (ℕ × OhlcvCache Db)
  counted_after n c db = ok (n, record c { db = db })

  executemany_none :
      (k f : String) (rows : List (ℕ × Stored)) (c : OhlcvCache Db)
      → length rows ≡ 0
      → (executemany table k f rows (ensure_schema table c).db
          >>= counted_after (length rows) (ensure_schema table c))
        ≡ raise "InvalidInputException"
  unfolding executemany
  executemany_none k f [] c h = refl
  executemany_none k f (r ∷ rows) c h = absurd (omega arith)

  put_cache_rows :
      (now : ℕ) (k f : String) (df : Frame) (ts : List ℕ) (rows : List (ℕ × Stored))
      (c : OhlcvCache Db)
      → times_of df ≡ ok ts
      → rows_of now ts df.bars ≡ ok rows
      → 1 ≤ length rows
      → any too_large rows ≡ false
      → put_cache table now k df f c ≡ ok (length rows, inserted k f rows c)
  unfolding put_cache
  put_cache_rows now k f df ts rows c e h some_row fits =
      elim (Bool-cases (eqb (length df.bars) 0)) [
        | inl p ↦
            let none_left : rows ≡ [] =
              ap (λ m. or_else m []) (sym h ∙ no_rows now ts df.bars ((eqb_iff _ _).0 p)) in
            let none_counted : length rows ≡ 0 = ap length none_left in absurd (omega arith)
        | inr p ↦
            let c' = ensure_schema table c in
            rw p (rw e (rw h (rw (executemany_ok k f rows c'.db some_row fits) refl)))
      ]

  cached_close-inserted :
      (k f k' f' start end : String) (t : ℕ) (rows : List (ℕ × Stored)) (c : OhlcvCache Db)
      → cached_close k' start end f' t (inserted k f rows c) ≡ (
          if k == k' && f == f' && laws.within start end t
          then either (close_of (last_row t rows)) (cached_close k' start end f' t c)
          else cached_close k' start end f' t c)
  cached_close-inserted k f k' f' start end t rows c =
      let c' = ensure_schema table c in
      ground (
        arith,
        cached_close_lem k' start end f' t (inserted k f rows c),
        cached_close_lem k' start end f' t c,
        find-upsert_all k f k' f' t rows c'.db,
        find-ensure_schema k' f' t c,
        find-ensure_schema k' f' t (inserted k f rows c),
        close_of-either (last_row t rows) (laws.find k' f' t c'.db),
      )

  -- put_cache, of a frame with times, a bar or more with a close and volumes that are no infinity and
  -- below 2 ** 63, succeeds and counts the bars with a close. Behind it get_cached answers, for the
  -- frame's ticker and timeframe and a time of the window, the close of the last bar with a close at
  -- that time, or else what it answered before; and under every other key what it answered before.
  pub get_cached-put_cache :
      (now : ℕ) (k f : String) (df : Frame) (ts : List ℕ) (c : OhlcvCache Db)
      → times_of df ≡ ok ts
      → All HasVolume df.bars
      → 1 ≤ count_closes ts df.bars
      → (n : ℕ) × (c' : OhlcvCache Db) × (put_cache table now k df f c ≡ ok (n, c'))
        × (n ≡ count_closes ts df.bars)
        × ((k' f' start end : String) (t : ℕ)
            → cached_close k' start end f' t c' ≡ (
                if k == k' && f == f' && laws.within start end t
                then either (last_close t ts df.bars) (cached_close k' start end f' t c)
                else cached_close k' start end f' t c))
  unfolding put_cache
  get_cached-put_cache now k f df ts c e h some_close =
      let (rows, r, l, n, fits) = rows_of_ok now ts df.bars h in
      (
        length rows,
        inserted k f rows c,
        put_cache_rows now k f df ts rows c e r (omega (arith, n, some_close)) fits,
        n,
        λ k' f' start end t. rw (sym (l t)) (cached_close-inserted k f k' f' start end t rows c),
      )

  -- A frame with rows of which none has a close is refused.
  put_cache_refused :
      (now : ℕ) (k f : String) (df : Frame) (ts : List ℕ) (c : OhlcvCache Db)
      → times_of df ≡ ok ts
      → All HasVolume df.bars
      → 1 ≤ length df.bars
      → count_closes ts df.bars ≡ 0
      → put_cache table now k df f c ≡ raise "InvalidInputException"
  unfolding put_cache
  put_cache_refused now k f df ts c e h some_bar no_close =
      let (rows, r, l, n, fits) = rows_of_ok now ts df.bars h in
      let filled : eqb (length df.bars) 0 ≡ false = ground arith in
      rw filled (rw e (rw r (executemany_none k f rows c (omega (arith, n, no_close)))))

  -- Behind invalidate the cache has no close for the tickers that it names, and the same closes for
  -- the others.
  pub cached_close-invalidate :
      (ticker : Option String) (k start end f : String) (t : ℕ) (c : OhlcvCache Db)
      → cached_close k start end f t (invalidate table ticker c).1
        ≡ (if names ticker k then none else cached_close k start end f t c)
  unfolding invalidate
  cached_close-invalidate none k start end f t c =
      let c' = ensure_schema table c in
      let c'' = record c' { db = table.delete_all c'.db } in
      ground (
        arith,
        cached_close_lem k start end f t c'',
        find-ensure_schema k f t c'',
        laws.find-delete_all k f t c'.db,
      )
  cached_close-invalidate (some j) k start end f t c =
      let c' = ensure_schema table c in
      let c'' = record c' { db = table.delete_ticker j c'.db } in
      ground (
        arith,
        cached_close_lem k start end f t c'',
        cached_close_lem k start end f t c,
        find-ensure_schema k f t c'',
        find-ensure_schema k f t c,
        laws.find-delete_ticker j k f t c'.db,
      )
