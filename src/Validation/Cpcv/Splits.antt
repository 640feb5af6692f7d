-- ===== src/Validation/Cpcv/Splits.antt =====
-- The training and test sets that CombinatorialPurgedCV.split yields.
use pigeon_trade.Common.{
  ℕ, zero, suc, ◌+◌, ◌≤◌, ◌<◌, ◌⊎◌, min, Bool, false, ◌&&◌, not, some, List, [], ◌∷◌, ◌≡◌, refl,
  arith, length, get_elem?, keep, All, any, Option-cases, inl, inr, All-keep_self,
}
use pigeon_trade.Validation.Combinations.{range_from}
use pigeon_trade.Validation.Cpcv.{
  Fold, obs_start, label_end, overlaps, window_end, purge_windows, test_mask, flip, select,
  split_one,
}
use pigeon_trade.Validation.Cpcv.Purging.{is_excluded, is_excluded-some, purge_windows_lem}

keep-congr {ℓ} :
    {A : Type ℓ} (p q : A → Bool) (xs : List A) → All (λ x. p x ≡ q x) xs → keep p xs ≡ keep q xs
unfolding keep
keep-congr p q [] h = refl
keep-congr p q (x ∷ xs) h = ground (arith, keep-congr p q xs h.1)

All-range_from :
    (P : ℕ → Type 0) (start n : ℕ) → ((i : ℕ) → i < start + n → P i) → All P (range_from start n)
unfolding range_from
All-range_from P start zero h = tt
All-range_from P start (suc n) h =
    (h start (omega arith), All-range_from P (suc start) n (λ i lt. h i (omega arith)))

All-mono {ℓ} :
    {A : Type ℓ} (P Q : A → Type 0) (xs : List A) → ((x : A) → P x → Q x) → All P xs → All Q xs
All-mono P Q [] f h = tt
All-mono P Q (x ∷ xs) f h = (f x h.0, All-mono P Q xs f h.1)

-- The training set, read from the definition of the method: the indices in no test range that no
-- test window excludes.
abbrev pub is_train : List ℕ → List ℕ → ℕ → List Fold → ℕ → Bool
is_train timestamps labels embargo_size ranges i =
    flip (test_mask ranges) i
    && not (any (λ w. is_excluded timestamps labels embargo_size w i) ranges)

module _ (timestamps labels : List ℕ) (embargo_size : ℕ) where
  -- For each combination the loops compute the training set that the method defines, index by
  -- index, and the indices of the test ranges, both in increasing order.
  pub split_one-exact :
      (ranges : List Fold) (train test : List ℕ)
      → split_one timestamps labels embargo_size ranges ≡ some (train, test)
      → (train ≡ select (length timestamps) (is_train timestamps labels embargo_size ranges))
        × (test ≡ select (length timestamps) (test_mask ranges))
  unfolding split_one
  split_one-exact ranges train test h =
      elim (Option-cases
        (purge_windows timestamps labels embargo_size ranges (flip (test_mask ranges)))) [
          | inl a ↦ absurd (cc (rw a at h))
          | inr (m, a) ↦ ground (
            arith,
            keep-congr m (is_train timestamps labels embargo_size ranges)
                (range_from 0 (length timestamps))
                (All-range_from _ 0 (length timestamps) (λ i lt.
                  purge_windows_lem timestamps labels embargo_size ranges _ m i a (omega arith))),
            rw a at h,
          )
        ]

  -- Observation `i` does not share time with the test window, nor lie in the embargo behind it.
  abbrev pub IsClean : Fold → ℕ → Type 0
  IsClean (s, e) i =
      (t_start t_end : ℕ)
      → get_elem? timestamps s ≡ some t_start
      → window_end timestamps e ≡ some t_end
      → ((label_end timestamps labels i < t_start) ⊎ (t_end < obs_start timestamps i))
        × ((i < e) ⊎ (min (e + embargo_size) (length timestamps) ≤ i))

  IsClean-of_excluded :
      (w : Fold) (i : ℕ) → is_excluded timestamps labels embargo_size w i ≡ false → IsClean w i
  unfolding overlaps
  IsClean-of_excluded (s, e) i h t_start t_end a b =
      ground (arith, is_excluded-some timestamps labels embargo_size s e t_start t_end i a b)

  IsClean-of_train :
      (ws : List Fold) (i : ℕ)
      → any (λ w. is_excluded timestamps labels embargo_size w i) ws ≡ false
      → All (λ w. IsClean w i) ws
  unfolding any
  IsClean-of_train [] i h = tt
  IsClean-of_train (w ∷ ws) i h =
      (IsClean-of_excluded w i (ground arith), IsClean-of_train ws i (ground arith))

  -- No training observation is in a test range, shares time with a test window (its label ends
  -- before the window, or it starts after it), or lies in the embargo behind a test range.
  pub split_one-no_leakage :
      (ranges : List Fold) (train test : List ℕ)
      → split_one timestamps labels embargo_size ranges ≡ some (train, test)
      → All (λ i. (test_mask ranges i ≡ false) × All (λ w. IsClean w i) ranges) train
  split_one-no_leakage ranges train test h = rw ((split_one-exact ranges train test h).0) (
      All-mono _ _ _ (λ i t. (ground arith, IsClean-of_train ranges i (ground arith)))
        (All-keep_self (is_train timestamps labels embargo_size ranges)
          (range_from 0 (length timestamps))))
