-- ===== src/Validation/Cpcv/Examples.antt =====
-- The theorems on the cross-validation splits (aqr/validation/cpcv.py) at six observations.
use pigeon_trade.Common.{ℕ, false, some, List, [], ◌∷◌, ◌≡◌, refl, All, keep}
use pigeon_trade.Validation.Cpcv.{
  Fold, Split, CombinatorialPurgedCv, purge_window, fold_at, split, split_one, select, test_mask,
  test_paths,
}
use pigeon_trade.Validation.Cpcv.Splits.{is_train, split_one-no_leakage, IsClean}
use pigeon_trade.Validation.Cpcv.Paths.{Paired, split-exact}
use pigeon_trade.Common.Options.{traverse}
use pigeon_trade.Validation.Combinations.{range_from, combinations}

abbrev days : List ℕ
days = 10 ∷ 20 ∷ 30 ∷ 40 ∷ 50 ∷ 60 ∷ []

-- Each label ends with the next observation.
abbrev next_days : List ℕ
next_days = 20 ∷ 30 ∷ 40 ∷ 50 ∷ 60 ∷ 60 ∷ []

abbrev three_folds : CombinatorialPurgedCv
three_folds = record { n_splits = 3; n_test_splits = 1 }

three_splits : List Split
three_splits =
    (3 ∷ 4 ∷ 5 ∷ [], 0 ∷ 1 ∷ []) ∷ (0 ∷ 5 ∷ [], 2 ∷ 3 ∷ []) ∷ (0 ∷ 1 ∷ 2 ∷ [], 4 ∷ 5 ∷ []) ∷ []

abbrev AsDefined : List Fold → Split → Type 0
AsDefined ranges r =
    (r.0 ≡ select 6 (is_train days next_days 1 ranges)) × (r.1 ≡ select 6 (test_mask ranges))

three_splits-eq : split three_folds days (some next_days) 1 ≡ some three_splits
unfolding three_splits split split_one purge_window keep test_paths range_from combinations traverse
    fold_at
three_splits-eq = refl

split-exact_example : Paired AsDefined (test_paths 6 3 1) three_splits
split-exact_example = split-exact three_folds days next_days 1 three_splits three_splits-eq

split_one-no_leakage_example :
    All
      (λ i.
        (test_mask ((0, 2) ∷ []) i ≡ false) × All (λ w. IsClean days next_days 1 w i) ((0, 2) ∷ []))
      (3 ∷ 4 ∷ 5 ∷ [])
unfolding split_one purge_window keep
split_one-no_leakage_example =
    split_one-no_leakage days next_days 1 ((0, 2) ∷ []) (3 ∷ 4 ∷ 5 ∷ []) (0 ∷ 1 ∷ []) refl
