-- ===== src/Data/Loading/Sources.antt =====
-- aqr/tools/core.py: where load_prices has the series of each ticker from.
use pigeon_trade.Common.{
  ℕ, String, true, Option, none, some, List, [], ◌∷◌, map, ◌==◌, eq_iff, if◌then◌else◌,
  Option-cases, inl, inr, ◌≡◌, refl, ap, ◌∙◌, arith, keep, Bool-cases, subst, fun_ext,
}
use pigeon_trade.Common.Sweep.{mem}
use pigeon_trade.Common.Dict.{Dict, lookup, insert, lookup-insert}
use pigeon_trade.Common.Except.{Except, ok, ◌>>=◌}
use pigeon_trade.Data.{Float, Table}
use pigeon_trade.Data.Cache.{OhlcvCache, ensure_schema, get_cached}
use pigeon_trade.Data.Adapter.{TInvestAdapter, Client, uncached, IsConsistent}
use pigeon_trade.Data.Adapter.FigiCache.{candles-uncached}
use pigeon_trade.Data.Loading.Answers.{
  is_none, Checks, check_results_lem, from_cache, unopened, Settles, union_lem,
}
use pigeon_trade.Data.Loading.{
  Stores, usable, check_results, split_cached, checked_length, fetch_one, fetch_all, fetch_remote,
  load_prices,
}

miss_step :
    (u t : String) (ts : List String) (h : String → Option (List Float)) (o : Option (List Float))
    → h u ≡ none
    → (if mem t ts then (if is_none (h t) then o else h t) else o)
      ≡ (if (if u == t then true else mem t ts) then (if is_none (h t) then o else h t) else o)
miss_step u t ts h o e = ground (arith, eq_iff u t)

hit_step :
    (u t : String) (ts : List String) (xs : List Float) (h : String → Option (List Float))
    (o : Option (List Float))
    → h u ≡ some xs
    → (if mem t ts
        then (if is_none (h t) then (if u == t then some xs else o) else h t)
        else (if u == t then some xs else o))
      ≡ (if (if u == t then true else mem t ts) then (if is_none (h t) then o else h t) else o)
hit_step u t ts xs h o e = ground (arith, eq_iff u t)

module _ {Db : Type 0} (table : Table Db) (fromisoformat : String → Except ℕ) (clock : String → ℕ)
    (start_date end_date timeframe : String) where
  -- The series that the cache has for a ticker.
  abbrev pub hit : OhlcvCache Db → String → Option (List Float)
  hit c t = usable (get_cached table t start_date end_date timeframe c).0

  get_cached_cache :
      (u : String) (c : OhlcvCache Db)
      → (get_cached table u start_date end_date timeframe c).1 ≡ ensure_schema table c
  unfolding get_cached
  get_cached_cache u c = ground arith

  hit-ensure_schema : (t : String) (c : OhlcvCache Db) → hit (ensure_schema table c) t ≡ hit c t
  unfolding get_cached ensure_schema
  hit-ensure_schema t c = elim (Bool-cases c.initialized) [ inl e ↦ rw e refl | inr e ↦ rw e refl ]

  get_cached_stable :
      (t u : String) (c : OhlcvCache Db)
      → hit (get_cached table u start_date end_date timeframe c).1 t ≡ hit c t
  get_cached_stable t u c = rw (get_cached_cache u c) (hit-ensure_schema t c)

  split_cached_found :
      (ts : List String) (cached : Dict (List Float)) (c : OhlcvCache Db) (t : String)
      → lookup t
          (split_cached table fromisoformat clock start_date end_date timeframe ts cached c).0
        ≡ (if mem t ts
            then (if is_none (hit c t) then lookup t cached else hit c t)
            else lookup t cached)
  unfolding split_cached
  split_cached_found [] cached c t = refl
  split_cached_found (u ∷ ts) cached c t =
      let c' = (get_cached table u start_date end_date timeframe c).1 in
      elim (Option-cases (hit c u)) [
        | inl e ↦
            rw (e, split_cached)
              (rw (split_cached_found ts cached c' t)
                (rw (get_cached_stable t u c) (miss_step u t ts (hit c) (lookup t cached) e)))
        | inr (xs, e) ↦
            rw (e, split_cached)
              (rw (split_cached_found ts (insert u xs cached) c' t) (
                rw (get_cached_stable t u c) (
                  rw (lookup-insert u t xs cached)
                    (hit_step u t ts xs (hit c) (lookup t cached) e))))
      ]

  split_cached_needs :
      (ts : List String) (cached : Dict (List Float)) (c : OhlcvCache Db)
      → (split_cached table fromisoformat clock start_date end_date timeframe ts cached c).1
        ≡ keep (λ t. is_none (hit c t)) ts
  unfolding split_cached keep
  split_cached_needs [] cached c = refl
  split_cached_needs (u ∷ ts) cached c =
      let c' = (get_cached table u start_date end_date timeframe c).1 in
      let same : (λ t. is_none (hit c' t)) ≡ (λ t. is_none (hit c t)) =
        fun_ext (λ t. ap is_none (get_cached_stable t u c)) in
      elim (Option-cases (hit c u)) [
        | inl e ↦ rw (e, split_cached) (rw (split_cached_needs ts cached c') (rw same refl))
        | inr (xs, e) ↦
            rw (e, split_cached) (rw (split_cached_needs ts (insert u xs cached) c') (rw same refl))
      ]

  module _ (client : Client) where
    -- The series that the service has for a ticker.
    abbrev pub remote : String → Except (List Float)
    remote t =
        uncached client fromisoformat t start_date end_date timeframe
        >>= checked_length table fromisoformat clock start_date end_date timeframe

    fetch_all-remote :
        (ts : List String) (s : Stores Db)
        → IsConsistent client s.figis
        → (fetch_all table fromisoformat clock start_date end_date timeframe client ts s).0
          ≡ map (λ t. (t, remote t)) ts
    unfolding fetch_all fetch_one
    fetch_all-remote [] s h = refl
    fetch_all-remote (t ∷ ts) s h =
        let (p, k) =
          candles-uncached client fromisoformat t start_date end_date timeframe s.figis h in
        let (r, s') =
          fetch_one table fromisoformat clock start_date end_date timeframe client t s in
        let rest =
          (fetch_all table fromisoformat clock start_date end_date timeframe client ts s').0 in
        ap
          (λ df.
            (t, df >>= checked_length table fromisoformat clock start_date end_date timeframe)
            ∷ rest)
          p
        ∙ ap (λ rs. (t, remote t) ∷ rs) (fetch_all-remote ts s' k)

  module _ (connect : TInvestAdapter → Client) where
    -- The series of a ticker: the cache's, or else that of the service.
    abbrev pub series : OhlcvCache Db → TInvestAdapter → String → Except (List Float)
    series c a t = from_cache (hit c t) (remote (connect a) t)

    fetch_remote_lem :
        (a : TInvestAdapter) (ts : List String) (s : Stores Db)
        → IsConsistent (connect a) s.figis
        → Checks
            (remote (connect a))
            ts
            (fetch_remote table fromisoformat clock start_date end_date timeframe connect
              (ok a)
              ts
              s).0
    unfolding check_results
    fetch_remote_lem a [] s h = check_results_lem (remote (connect a)) []
    fetch_remote_lem a (t ∷ ts) s h =
        rw (fetch_all-remote (connect a) (t ∷ ts) s h)
          (check_results_lem (remote (connect a)) (t ∷ ts))

    -- load_prices, with an adapter and a consistent cache of FIGIs. If it returns, each ticker that
    -- was asked for has its series, from the cache where enough bars of the window are cached and
    -- else from the service, and no other ticker stands in the answer. If it raises, it raises
    -- RuntimeError, and the service failed or had too few bars for a ticker that was asked for and
    -- is not cached.
    pub load_prices_lem :
        (a : TInvestAdapter) (tickers : List String) (s : Stores Db)
        → IsConsistent (connect a) s.figis
        → Settles
            (series (unopened s) a)
            tickers
            (load_prices table fromisoformat clock start_date end_date timeframe connect
              (ok a)
              tickers
              s).0
    unfolding load_prices lookup
    load_prices_lem a tickers s h =
        let c = unopened s in
        let (cached, needs, c') =
          split_cached table fromisoformat clock start_date end_date timeframe tickers [] c in
        let m =
          (fetch_remote table fromisoformat clock start_date end_date timeframe connect (ok a) needs
            (record s { cache = c' })).0 in
        union_lem (hit c) (remote (connect a)) tickers cached m (split_cached_found tickers [] c) (
          subst (λ ts. Checks (remote (connect a)) ts m) (split_cached_needs tickers [] c)
            (fetch_remote_lem a needs (record s { cache = c' }) h))
