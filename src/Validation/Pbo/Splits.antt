-- ===== src/Validation/Pbo/Splits.antt =====
-- aqr/validation/pbo.py: the splits into train and test, and the counts over them.
use pigeon_trade.Common.{
  ℕ, zero, suc, ◌+◌, ◌*◌, ◌/◌, ◌≤◌, ◌<◌, false, not, some, List, [], ◌∷◌, map, length, length-map,
  keep, All-keep_self, take, drop, get_elem?, ◌++◌, true, fun_ext, if◌then◌else◌, any, ltb, All,
  All-append, ◌≡◌, refl, ap, ◌∙◌, arith,
}
use pigeon_trade.Validation.Combinations.{
  combinations, comb, range_from, length-combinations, length-range_from, All-combinations,
}
use pigeon_trade.Validation.Pbo.Best.{
  IsOrdered, IsFirstBest, argmax-IsFirstBest, value_at-get_elem?, get_elem?-below,
}
use pigeon_trade.Validation.Pbo.{
  Statistics, Overfitting, n_parts, is_member, test_of, chosen, evaluated, rank, stacked,
  sharpe_col, argmax, value_at, probability_of_backtest_overfitting,
}

-- The elements of a range that are not in a list.
abbrev others : ℕ → ℕ → List ℕ → List ℕ
others start n c = keep (λ i. not (is_member i c)) (range_from start n)

others-nil : (start n : ℕ) → length (others start n []) ≡ n
unfolding keep range_from is_member any
others-nil start zero = refl
others-nil start (suc n) = ap suc (others-nil (suc start) n)

-- An element before the range does not matter.
others-cons : (x start n : ℕ) (c : List ℕ) → x < start → others start n (x ∷ c) ≡ others start n c
unfolding keep range_from is_member any
others-cons x start zero c h = refl
others-cons x start (suc n) c h = ground (arith, others-cons x (suc start) n c (omega (arith, h)))

is_member-above : (x : ℕ) (c : List ℕ) → All (λ j. x < j) c → is_member x c ≡ false
unfolding is_member any
is_member-above x [] h = refl
is_member-above x (y ∷ c) h = ground (arith, is_member-above x c h.1)

All-range_from : (x start n : ℕ) → x < start → All (λ j. x < j) (range_from start n)
unfolding range_from
All-range_from x start zero h = tt
All-range_from x start (suc n) h = (h, All-range_from x (suc start) n (omega (arith, h)))

others-taken :
    (start n : ℕ) (c : List ℕ) → others start (suc n) (start ∷ c) ≡ others (suc start) n c
unfolding keep range_from is_member any
others-taken start n c = ground (arith, others-cons start (suc start) n c (omega arith))

others-skipped :
    (start n : ℕ) (c : List ℕ)
    → All (λ j. start < j) c
    → length (others start (suc n) c) ≡ suc (length (others (suc start) n c))
unfolding keep range_from
others-skipped start n c h = ground (arith, is_member-above start c h)

-- A combination takes k of the n elements of the range, and leaves the others.
abbrev IsTaken : ℕ → ℕ → ℕ → List ℕ → Type 0
IsTaken k start n c = (length c ≡ k) × (length (others start n c) + k ≡ n)

IsTaken-cons :
    (k start n : ℕ) (cs : List (List ℕ))
    → All (IsTaken k (suc start) n) cs
    → All (IsTaken (suc k) start (suc n)) (map (◌∷◌ start) cs)
IsTaken-cons k start n [] h = tt
IsTaken-cons k start n (c ∷ cs) h = (
  (ap suc h.0.0, omega (arith, h.0.1, ap length (others-taken start n c))),
  IsTaken-cons k start n cs h.1,
)

IsTaken-skip :
    (k start n : ℕ) (cs : List (List ℕ))
    → All (λ c. All (λ j. start < j) c) cs
    → All (IsTaken k (suc start) n) cs
    → All (IsTaken k start (suc n)) cs
IsTaken-skip k start n [] a h = tt
IsTaken-skip k start n (c ∷ cs) a h =
    ((h.0.0, omega (arith, h.0.1, others-skipped start n c a.0)), IsTaken-skip k start n cs a.1 h.1)

IsTaken-combinations :
    (k start n : ℕ) → All (IsTaken k start n) (combinations k (range_from start n))
unfolding combinations range_from
IsTaken-combinations zero start n = ((refl, omega (arith, others-nil start n)), tt)
IsTaken-combinations (suc k) start zero = tt
IsTaken-combinations (suc k) start (suc n) =
    let cs = combinations (suc k) (range_from (suc start) n) in
    All-append (IsTaken (suc k) start (suc n))
      (map (◌∷◌ start) (combinations k (range_from (suc start) n))) cs
      (IsTaken-cons k start n (combinations k (range_from (suc start) n))
        (IsTaken-combinations k (suc start) n))
      (IsTaken-skip (suc k) start n cs
        (All-combinations (λ j. start < j) (suc k) (range_from (suc start) n)
          (All-range_from start (suc start) n (omega arith)))
        (IsTaken-combinations (suc k) (suc start) n))

n_parts_even : (n : ℕ) → n_parts n ≡ n_parts n / 2 + n_parts n / 2
n_parts_even n = ground arith

-- Train and test are two halves of the parts.
abbrev pub IsHalved : ℕ → List ℕ → Type 0
IsHalved s train = (length train + length train ≡ s) × (length (test_of s train) ≡ length train)

IsHalved-taken :
    (s h : ℕ) (cs : List (List ℕ)) → s ≡ h + h → All (IsTaken h 0 s) cs → All (IsHalved s) cs
IsHalved-taken s h [] e k = tt
IsHalved-taken s h (c ∷ cs) e k =
    ((omega (arith, e, k.0.0), omega (arith, e, k.0.0, k.0.1)), IsHalved-taken s h cs e k.1)

All-each : {A : Type 0} (P : A → Type 0) → ((a : A) → P a) → (xs : List A) → All P xs
All-each P f [] = tt
All-each P f (x ∷ xs) = (f x, All-each P f xs)

All-and :
    {A : Type 0} (P Q : A → Type 0) → ((a : A) → P a → Q a) → (xs : List A) → All P xs → All Q xs
All-and P Q f [] h = tt
All-and P Q f (x ∷ xs) h = (f x h.0, All-and P Q f xs h.1)

-- Train and test have no part in common.
abbrev pub IsApart : ℕ → List ℕ → Type 0
IsApart s train = All (λ i. not (is_member i train) ≡ true) (test_of s train)

module _ {F : Type 0} (stats : Statistics F) where
  abbrev pub joined : List (List F) → List F
  joined [] = []
  joined (xs ∷ xss) = xs ++ joined xss

  -- The ratio of the mean and the deviation, 0 without a deviation.
  abbrev pub ratio : List F → F
  ratio xs =
      if stats.is_zero (stats.std xs)
      then stats.zero_value
      else stats.divide (stats.mean xs) (stats.std xs)

  -- The ratio of each strategy on the rows of some parts of `size` rows.
  abbrev pub ratios : ℕ → List ℕ → List (List F) → List F
  ratios size parts m =
      map (λ column. ratio (joined (map (λ i. take size (drop (i * size) column)) parts))) m

  stacked_lem :
      (size : ℕ) (parts : List ℕ) (column : List F)
      → stacked stats size parts column
        ≡ joined (map (λ i. take size (drop (i * size) column)) parts)
  unfolding stacked
  stacked_lem size [] column = refl
  stacked_lem size (i ∷ parts) column =
      ap (λ t. take size (drop (i * size) column) ++ t) (stacked_lem size parts column)

  ratios_lem :
      (size : ℕ) (parts : List ℕ) (m : List (List F))
      → map (λ c. sharpe_col stats (stacked stats size parts c)) m ≡ ratios size parts m
  ratios_lem size parts m =
      ap (λ f. map f m) (fun_ext (λ c. ap (sharpe_col stats) (stacked_lem size parts c)))

  -- The index of the first best strategy on the train rows, and its ratio on the test rows.
  abbrev pub IsPick : ℕ → ℕ → List (List F) → List ℕ → ℕ → F → Type 0
  IsPick s size m train best mark =
      IsFirstBest stats best (ratios size train m)
      × (get_elem? (ratios size (test_of s train) m) best ≡ some mark)

  -- How many strategies do at most as well as a ratio on the test rows.
  abbrev pub at_most : ℕ → ℕ → List (List F) → List ℕ → F → ℕ
  at_most s size m train mark =
      length (keep (λ x. stats.le x mark) (ratios size (test_of s train) m))

  abbrev best_of : ℕ → List (List F) → List ℕ → ℕ
  best_of size m train = argmax stats (ratios size train m)

  abbrev mark_of : ℕ → ℕ → List (List F) → List ℕ → F
  mark_of s size m train = value_at stats (ratios size (test_of s train) m) (best_of size m train)

  rank_lem :
      (s size : ℕ) (m : List (List F)) (train : List ℕ)
      → rank stats s size m train ≡ at_most s size m train (mark_of s size m train)
  unfolding rank
  rank_lem s size m train = rw (ratios_lem size train m, ratios_lem size (test_of s train) m) refl

  module _ (ordered : IsOrdered stats) where
    IsPick-best :
        (s size : ℕ) (m : List (List F)) (train : List ℕ)
        → 2 ≤ length m
        → All (λ x. stats.le x x ≡ true) (ratios size train m)
        → IsPick s size m train (best_of size m train) (mark_of s size m train)
    IsPick-best s size m train two numbers =
        let on_train = ratios size train m in
        let on_test = ratios size (test_of s train) m in
        let as_many : length on_train ≡ length m =
          length-map
            (λ column. ratio (joined (map (λ i. take size (drop (i * size) column)) train))) m in
        let as_many_tests : length on_test ≡ length m =
          length-map
            (λ column.
              ratio (joined (map (λ i. take size (drop (i * size) column)) (test_of s train))))
            m in
        let found =
          argmax-IsFirstBest stats ordered on_train (omega (arith, as_many, two)) numbers in
        let below = get_elem?-below on_train (best_of size m train) found.0 found.1 in
        (
          found,
          value_at-get_elem? stats on_test (best_of size m train)
              (omega (arith, as_many, as_many_tests, below)),
        )

    -- On an order of the ratios, with two strategies or more, two rows or more for each part, no more
    -- combinations of half the parts than the maximum and no train ratio that is NaN: every
    -- combination is a split into two halves of the parts that have none in common, and the splits
    -- are as many as the binomial coefficient. A split counts as overfit where less than half of the
    -- strategies do at most as well on its test rows as the first of the best on its train rows. The
    -- verdict is robust below three tenths of the splits, suspicious from there on and below a half,
    -- and overfit from a half on.
    pub probability_of_backtest_overfitting_lem :
        (choice : ℕ → ℕ → List ℕ) (t : ℕ) (m : List (List F)) (n most : ℕ)
        → 2 ≤ length m
        → n_parts n * 2 ≤ t / n_parts n * n_parts n
        → comb (n_parts n) (n_parts n / 2) ≤ most
        → All
            (λ c. All (λ x. stats.le x x ≡ true) (ratios (t / n_parts n) c m))
            (combinations (n_parts n / 2) (range_from 0 (n_parts n)))
        → (splits : List (List ℕ)) × (best : List ℕ → ℕ) × (mark : List ℕ → F) × (out : Overfitting)
          × (probability_of_backtest_overfitting stats choice t m n most ≡ some out)
          × (splits ≡ combinations (n_parts n / 2) (range_from 0 (n_parts n)))
          × All (IsHalved (n_parts n)) splits
          × All (IsApart (n_parts n)) splits
          × (length splits ≡ comb (n_parts n) (n_parts n / 2))
          × All (λ c. IsPick (n_parts n) (t / n_parts n) m c (best c) (mark c)) splits
          × (out.n_combinations ≡ length splits)
          × (out.overfit
              ≡ length (
                  keep
                    (λ c. ltb (2 * at_most (n_parts n) (t / n_parts n) m c (mark c)) (length m))
                    splits))
          × (out.verdict ≡ (
              if ltb (10 * out.overfit) (3 * out.n_combinations)
              then "robust"
              else if ltb (2 * out.overfit) out.n_combinations
              then "suspicious"
              else "overfit"))
    unfolding probability_of_backtest_overfitting chosen
    probability_of_backtest_overfitting_lem choice t m n most two rows few numbers =
        let s = n_parts n in
        let size = t / s in
        let splits = combinations (s / 2) (range_from 0 s) in
        let counted : length splits ≡ comb s (s / 2) =
          length-combinations (s / 2) (range_from 0 s)
          ∙ ap (λ l. comb l (s / 2)) (length-range_from 0 s) in
        (
          splits,
          best_of size m,
          mark_of s size m,
          evaluated stats s size m splits,
          ground (arith, counted),
          refl,
          IsHalved-taken s (s / 2) splits (n_parts_even n) (IsTaken-combinations (s / 2) 0 s),
          All-each (IsApart s) (λ c. All-keep_self (λ i. not (is_member i c)) (range_from 0 s))
              splits,
          counted,
          All-and (λ c. All (λ x. stats.le x x ≡ true) (ratios size c m))
              (λ c. IsPick s size m c (best_of size m c) (mark_of s size m c))
              (λ c. IsPick-best s size m c two) splits numbers,
          refl,
          ap (λ p. length (keep p splits))
              (fun_ext (λ c. ap (λ r. ltb (2 * r) (length m)) (rank_lem s size m c))),
          refl,
        )
