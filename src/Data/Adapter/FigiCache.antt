-- ===== src/Data/Adapter/FigiCache.antt =====
-- aqr/data/tinvest.py: the cache of FIGIs does not change what candles answers.
use pigeon_trade.Common.{ℕ, String, eq_iff, ◌≡◌, refl, sym, arith, inl, inr, Option-cases}
use pigeon_trade.Common.Dict.{Dict, lookup, insert, lookup-insert}
use pigeon_trade.Common.Except.{Except, ok, raise}
use pigeon_trade.Data.Adapter.{
  Client, find_figi, cached_figi, resolve_figi, candles, uncached, interval_map, IsConsistent,
}

module _ (client : Client) where
  IsConsistent-insert :
      (ticker figi : String) (figis : Dict String)
      → find_figi client ticker ≡ ok figi
      → IsConsistent client figis
      → IsConsistent client (insert ticker figi figis)
  IsConsistent-insert ticker figi figis e h t f p =
      ground (arith, lookup-insert ticker t figi figis, eq_iff ticker t, h t f, e)

  -- The answer of resolve_figi and the cache that it leaves.
  abbrev IsFaithful : String → Except String × Dict String → Type 0
  IsFaithful ticker (found, figis) = (found ≡ find_figi client ticker) × IsConsistent client figis

  cached_figi-IsFaithful :
      (ticker : String) (figis : Dict String) (found : Except String)
      → found ≡ find_figi client ticker
      → IsConsistent client figis
      → IsFaithful ticker (cached_figi client ticker figis found)
  cached_figi-IsFaithful ticker figis (ok figi) e h =
      (e, IsConsistent-insert ticker figi figis (sym e) h)
  cached_figi-IsFaithful ticker figis (raise x) e h = (e, h)

  resolve_figi-IsFaithful :
      (ticker : String) (figis : Dict String)
      → IsConsistent client figis
      → IsFaithful ticker (resolve_figi client ticker figis)
  unfolding resolve_figi
  resolve_figi-IsFaithful ticker figis h = elim (Option-cases (lookup ticker figis)) [
    | inl e ↦
        rw (e, resolve_figi) (cached_figi-IsFaithful ticker figis (find_figi client ticker) refl h)
    | inr (figi, e) ↦ rw (e, resolve_figi) (sym (h ticker figi e), h)
  ]

  module _ (fromisoformat : String → Except ℕ) where
    -- With a cache whose FIGIs are the service's, candles answers or raises what it would with an
    -- empty cache, for every ticker, window and interval, and leaves such a cache.
    pub candles-uncached :
        (ticker from_date to_date interval : String) (figis : Dict String)
        → IsConsistent client figis
        → ((candles client fromisoformat ticker from_date to_date interval figis).0
            ≡ uncached client fromisoformat ticker from_date to_date interval)
          × IsConsistent client
              (candles client fromisoformat ticker from_date to_date interval figis).1
    unfolding candles
    candles-uncached ticker from_date to_date interval figis h =
        elim (Option-cases (lookup interval interval_map)) [
          | inl e ↦ rw (e, candles, uncached) (refl, h)
          | inr (enum, e) ↦
              let (p, k) = resolve_figi-IsFaithful ticker figis h in
              rw (e, candles, uncached) (rw p (refl, k))
        ]
