-- ===== src/Backtest/Series.antt =====
-- The operations of a pandas series that the backtest uses.
pub mod Prefix
use pigeon_trade.Common.{ℕ, suc, not, List, [], ◌∷◌, map, keep, if◌then◌else◌}
use pigeon_trade.Floats.{Floats, unit_value, larger, smaller}

module _ {F : Type 0} where
  -- x.shift(1), with `first` in the place of the NaN that it starts with
  unfoldable pub shift : F → List F → List F
  shift first [] = []
  shift first (x ∷ xs) = first ∷ shift x xs

  unfoldable pub zip_with : (F → F → F) → List F → List F → List F
  zip_with f [] ys = []
  zip_with f (x ∷ xs) [] = []
  zip_with f (x ∷ xs) (y ∷ ys) = f x y ∷ zip_with f xs ys

  unfoldable pub indexed : ℕ → List F → List (ℕ × F)
  indexed i [] = []
  indexed i (x ∷ xs) = (i, x) ∷ indexed (suc i) xs

  abbrev pub values_of : List (ℕ × F) → List F
  values_of xs = map (λ p. p.1) xs

  abbrev pub index_of : List (ℕ × F) → List ℕ
  index_of xs = map (λ p. p.0) xs

module _ {F : Type 0} (fl : Floats F) where
  -- x.fillna(0.0)
  abbrev pub filled : F → F
  filled x = if fl.is_nan x then fl.zero_value else x

  abbrev pub fill_nan : List F → List F
  fill_nan xs = map filled xs

  unfoldable pub relative_from : F → List F → List F
  relative_from before [] = []
  relative_from before (x ∷ xs) = fl.sub (fl.div x before) (unit_value fl) ∷ relative_from x xs

  -- prices.pct_change().fillna(0.0)
  unfoldable pub pct_change : List F → List F
  unfolding relative_from
  pct_change [] = []
  pct_change (x ∷ xs) = fl.zero_value ∷ fill_nan (relative_from x xs)

  unfoldable pub differences_from : F → List F → List F
  differences_from before [] = []
  differences_from before (x ∷ xs) = fl.sub x before ∷ differences_from x xs

  -- x.diff(), without the NaN that it starts with
  unfoldable pub changes : List F → List F
  unfolding differences_from
  changes [] = []
  changes (x ∷ xs) = differences_from x xs

  -- x.diff().abs().fillna(x.abs())
  unfoldable pub turnover : List F → List F
  unfolding differences_from
  turnover [] = []
  turnover (x ∷ xs) = fl.abs x ∷ map fl.abs (differences_from x xs)

  -- x.dropna(), each value with its index
  unfoldable pub dropna : List F → List (ℕ × F)
  unfolding indexed
  dropna xs = keep (λ p. not (fl.is_nan p.1)) (indexed 0 xs)

  unfoldable pub products_from : F → List F → List F
  products_from product [] = []
  products_from product (x ∷ xs) = fl.mul product x ∷ products_from (fl.mul product x) xs

  unfoldable pub cum_prod : List F → List F
  unfolding products_from
  cum_prod [] = []
  cum_prod (x ∷ xs) = x ∷ products_from x xs

  unfoldable pub drawdowns_from : F → List F → List F
  drawdowns_from top [] = []
  drawdowns_from top (x ∷ xs) =
      fl.sub (fl.div x (larger fl top x)) (unit_value fl) ∷ drawdowns_from (larger fl top x) xs

  -- equity / equity.cummax() - 1.0
  unfoldable pub drawdowns : List F → List F
  unfolding drawdowns_from
  drawdowns [] = []
  drawdowns (x ∷ xs) = drawdowns_from x (x ∷ xs)

  unfoldable pub lowest_from : F → List F → F
  lowest_from m [] = m
  lowest_from m (x ∷ xs) = lowest_from (smaller fl m x) xs

  -- x.min()
  unfoldable pub lowest : List F → F
  unfolding lowest_from
  lowest [] = fl.zero_value
  lowest (x ∷ xs) = lowest_from x xs
