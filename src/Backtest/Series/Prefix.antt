-- ===== src/Backtest/Series/Prefix.antt =====
-- The operations on series and a cut at the front.
use pigeon_trade.Common.{
  ℕ, zero, suc, ◌<◌, List, [], ◌∷◌, map, length, take, ◌≡◌, refl, ap, ◌∙◌, arith,
}
use pigeon_trade.Floats.{Floats, unit_value}
use pigeon_trade.Backtest.Series.{
  shift, filled, fill_nan, zip_with, relative_from, pct_change, differences_from, turnover,
}

module _ {F : Type 0} where
  pub take-map : (f : F → F) (k : ℕ) (xs : List F) → take k (map f xs) ≡ map f (take k xs)
  take-map f zero xs = refl
  take-map f (suc k) [] = refl
  take-map f (suc k) (x ∷ xs) = ap (λ t. f x ∷ t) (take-map f k xs)

  pub take-zip_with :
      (f : F → F → F) (k : ℕ) (xs ys : List F)
      → take k (zip_with f xs ys) ≡ zip_with f (take k xs) (take k ys)
  unfolding zip_with
  take-zip_with f zero xs ys = refl
  take-zip_with f (suc k) [] ys = refl
  take-zip_with f (suc k) (x ∷ xs) [] = refl
  take-zip_with f (suc k) (x ∷ xs) (y ∷ ys) = ap (λ t. f x y ∷ t) (take-zip_with f k xs ys)

  -- A shift makes one more entry depend on as many.
  pub shift-prefix :
      (first : F) (k : ℕ) (xs ys : List F)
      → take k xs ≡ take k ys
      → k < length xs
      → k < length ys
      → take (suc k) (shift first xs) ≡ take (suc k) (shift first ys)
  unfolding shift
  shift-prefix first k [] ys e h l = absurd (omega arith)
  shift-prefix first k (x ∷ xs) [] e h l = absurd (omega arith)
  shift-prefix first zero (x ∷ xs) (y ∷ ys) e h l = refl
  shift-prefix first (suc k) (x ∷ xs) (y ∷ ys) e h l =
      let same : x ≡ y = cc in
      let rest : take k xs ≡ take k ys = cc in
      rw same (ap (λ t. first ∷ t) (shift-prefix y k xs ys rest (omega arith) (omega arith)))

module _ {F : Type 0} (fl : Floats F) where
  take-relative_from :
      (before : F) (k : ℕ) (xs : List F)
      → take k (relative_from fl before xs) ≡ relative_from fl before (take k xs)
  unfolding relative_from
  take-relative_from before zero xs = refl
  take-relative_from before (suc k) [] = refl
  take-relative_from before (suc k) (x ∷ xs) =
      ap (λ t. fl.sub (fl.div x before) (unit_value fl) ∷ t) (take-relative_from x k xs)

  pub take-pct_change :
      (k : ℕ) (xs : List F) → take k (pct_change fl xs) ≡ pct_change fl (take k xs)
  unfolding pct_change
  take-pct_change zero xs = refl
  take-pct_change (suc k) [] = refl
  take-pct_change (suc k) (x ∷ xs) =
      ap (λ t. fl.zero_value ∷ t)
        (take-map (filled fl) k (relative_from fl x xs)
          ∙ ap (fill_nan fl) (take-relative_from x k xs))

  take-differences_from :
      (before : F) (k : ℕ) (xs : List F)
      → take k (differences_from fl before xs) ≡ differences_from fl before (take k xs)
  unfolding differences_from
  take-differences_from before zero xs = refl
  take-differences_from before (suc k) [] = refl
  take-differences_from before (suc k) (x ∷ xs) =
      ap (λ t. fl.sub x before ∷ t) (take-differences_from x k xs)

  pub take-turnover : (k : ℕ) (xs : List F) → take k (turnover fl xs) ≡ turnover fl (take k xs)
  unfolding turnover
  take-turnover zero xs = refl
  take-turnover (suc k) [] = refl
  take-turnover (suc k) (x ∷ xs) =
      ap (λ t. fl.abs x ∷ t)
        (take-map fl.abs k (differences_from fl x xs)
          ∙ ap (map fl.abs) (take-differences_from x k xs))
