-- ===== src/Screener.antt =====
-- aqr/screener/vectorbt.py: the grid search over the windows of two averages. vectorbt's backtest of a
-- pair is a parameter, and so is `rank`, the place of a float among the finite ones, by which Python
-- sorts.
pub mod Best
mod Examples
use pigeon_trade.Common.{
  ℕ, zero, suc, ◌+◌, ◌-◌, ◌*◌, ◌/◌, Bool, String, Option, none, some, List, [], ◌∷◌, ◌++◌, map,
  keep, take, ltb, eqb, if◌then◌else◌,
}
use pigeon_trade.Common.Except.{Except, ok, raise, ◌>>=◌}
use pigeon_trade.Common.Sort.{sort_desc}

-- What vectorbt returns for a measure: None, a value that float() or int() refuses, or a number.
pub data Raw (F : Type 0) : Type 0 where
  missing refused : Raw F
  value : F → Raw F

pub record RawStats (F : Type 0) : Type 0 where
  pub sharpe_ratio : Raw F
  pub sortino_ratio : Raw F
  pub drawdown : Raw F
  pub total : Raw F
  -- `none` where int() refuses the count or it is negative
  pub trades : Option ℕ

pub record VariantResult (F : Type 0) : Type 0 where
  pub fast : ℕ
  pub slow : ℕ
  pub sharpe : F
  pub sortino : F
  pub max_drawdown : F
  pub total_return : F
  pub n_trades : ℕ

-- The numbers from `start` on, `step` apart.
unfoldable pub steps_from : ℕ → ℕ → ℕ → List ℕ
steps_from start step zero = []
steps_from start step (suc n) = start ∷ steps_from (start + step) step n

-- range(start, stop, step), which refuses a step of zero
unfoldable pub range_of : ℕ × ℕ × ℕ → Except (List ℕ)
unfolding steps_from
range_of (start, stop, step) =
    if eqb step 0
    then raise "ValueError"
    else ok (steps_from start step ((stop - start + (step - 1)) / step))

-- s > f + 5
abbrev pub is_spread : ℕ × ℕ → Bool
is_spread (f, s) = ltb (f + 5) s

-- [(f, s) for f in fast for s in slow if s > f + 5]
unfoldable pub pairs_of : List ℕ → List ℕ → List (ℕ × ℕ)
pairs_of [] slows = []
pairs_of (f ∷ fs) slows = keep is_spread (map (λ s. (f, s)) slows) ++ pairs_of fs slows

module _ {F : Type 0} (nought : F) (is_nan : F → Bool) where
  -- _safe
  unfoldable pub safe : Raw F → F
  safe missing = nought
  safe refused = nought
  safe (value v) = if is_nan v then nought else v

  -- _safe_count
  unfoldable pub safe_count : Option ℕ → ℕ
  safe_count none = 0
  safe_count (some n) = n

  module _ (backtest : List F → ℕ → ℕ → RawStats F) (rank : F → ℕ) where
    unfoldable pub variant : List F → ℕ × ℕ → VariantResult F
    unfolding safe safe_count
    variant close (f, s) =
        let stats = backtest close f s in
        record {
          fast = f;
          slow = s;
          sharpe = safe stats.sharpe_ratio;
          sortino = safe stats.sortino_ratio;
          max_drawdown = safe stats.drawdown;
          total_return = safe stats.total;
          n_trades = safe_count stats.trades;
        }

    abbrev pub sharpe_rank : VariantResult F → ℕ
    sharpe_rank r = rank r.sharpe

    abbrev pub top_of : List F → ℕ → List ℕ → List ℕ → List (VariantResult F)
    top_of close top_n fasts slows =
        take top_n (sort_desc sharpe_rank (map (variant close) (pairs_of fasts slows)))

    -- The closes that are given, or those of the candles of the adapter.
    abbrev closes_or : Option (List F) → Except (List F) → Except (List F)
    closes_or none loaded = loaded
    closes_or (some close) loaded = ok close

    -- screen_momentum, less the ticker that each entry has; `installed` says whether vectorbt is
    unfoldable pub screen_momentum :
        Bool
        → ℕ × ℕ × ℕ
        → ℕ × ℕ × ℕ
        → ℕ
        → Option (List F)
        → Except (List F)
        → Except (List (VariantResult F))
    unfolding variant pairs_of range_of
    screen_momentum installed fast_range slow_range top_n candles loaded =
        if installed
        then (do
          close ← closes_or candles loaded
          fasts ← range_of fast_range
          slows ← range_of slow_range
          ok (top_of close top_n fasts slows))
        else raise "RuntimeError"
