-- ===== src/Validation/Cpcv/Paths.antt =====
-- The whole generator: how many splits it yields, and that it yields them all.
use native.Mathlib.Nat.{div-add-mod}
use pigeon_trade.Common.{
  ℕ, zero, suc, ◌+◌, ◌*◌, ◌/◌, ◌≤◌, ◌<◌, Option, none, some, List, [], ◌∷◌, ◌≡◌, refl, ap, arith,
  length, get_elem?, All, map, Option-cases, inl, inr, ◌∙◌, length-map, subst,
}
use pigeon_trade.Common.Options.{traverse}
use pigeon_trade.Validation.Combinations.{
  combinations, comb, range_from, length-combinations, length-range_from,
}
use pigeon_trade.Validation.Cpcv.{
  Mask, Fold, Split, CombinatorialPurgedCv, last_of, window_end, purge_window, purge_windows,
  test_mask, flip, select, split_one, split, folds, fold_at, fold_of, test_paths, n_paths,
}
use pigeon_trade.Validation.Cpcv.Splits.{is_train, split_one-exact}

-- The ranges lie among T observations, and each begins at one of them.
abbrev InRange : ℕ → Fold → Type 0
InRange t (s, e) = (s < t) × (e ≤ t)

last_of-some : (x : ℕ) (xs : List ℕ) → (t : ℕ) × (last_of (x ∷ xs) ≡ some t)
unfolding last_of
last_of-some x [] = (x, refl)
last_of-some x (y ∷ xs) = last_of-some y xs

get_elem?-some : (xs : List ℕ) (i : ℕ) → i < length xs → (t : ℕ) × (get_elem? xs i ≡ some t)
get_elem?-some [] i h = elim h [ ]
get_elem?-some (x ∷ xs) zero h = (x, refl)
get_elem?-some (x ∷ xs) (suc i) h = get_elem?-some xs i (omega arith)

window_end-some :
    (timestamps : List ℕ) (e : ℕ)
    → 0 < length timestamps
    → e ≤ length timestamps
    → (t : ℕ) × (window_end timestamps e ≡ some t)
unfolding window_end
window_end-some [] zero h k = elim h [ ]
window_end-some (x ∷ xs) zero h k = last_of-some x xs
window_end-some timestamps (suc e) h k = get_elem?-some timestamps e (omega arith)

module _ (timestamps labels : List ℕ) (embargo_size : ℕ) (nonempty : 0 < length timestamps) where
  purge_windows_total :
      (ws : List Fold) (mask : Mask)
      → All (InRange (length timestamps)) ws
      → (m : Mask) × (purge_windows timestamps labels embargo_size ws mask ≡ some m)
  unfolding purge_windows purge_window
  purge_windows_total [] mask h = (mask, refl)
  purge_windows_total ((s, e) ∷ ws) mask h =
      let (a, pa) = get_elem?-some timestamps s h.0.0 in
      let (b, pb) = window_end-some timestamps e nonempty h.0.1 in
      rw (pa, pb) (purge_windows_total ws _ h.1)

  split_one_total :
      (ranges : List Fold)
      → All (InRange (length timestamps)) ranges
      → (r : Split) × (split_one timestamps labels embargo_size ranges ≡ some r)
  unfolding split_one
  split_one_total ranges h =
      let (m, p) = purge_windows_total ranges (flip (test_mask ranges)) h in
      ((select (length timestamps) m, select (length timestamps) (test_mask ranges)), rw p)

traverse_total {ℓ κ} :
    {A : Type ℓ} {B : Type κ} (f : A → Option B) (xs : List A)
    → All (λ x. (y : B) × (f x ≡ some y)) xs
    → (ys : List B) × (traverse f xs ≡ some ys) × (length ys ≡ length xs)
unfolding traverse
traverse_total f [] h = ([], refl, refl)
traverse_total f (x ∷ xs) h =
    let (ys, p, q) = traverse_total f xs h.1 in (h.0.0 ∷ ys, rw (h.0.1, p), ap suc q)

fold_end : (t n i : ℕ) → i < n → (i + 1) * (t / n) ≤ t
fold_end t n i lt = grind (arith, div-add-mod t n)

fold_start : (t q i : ℕ) → 0 < t → (i + 1) * q ≤ t → i * q < t
fold_start t zero i pos h = omega arith
fold_start t (suc q) i pos h = omega arith

fold_at-InRange : (t n i : ℕ) → 0 < t → i < n → InRange t (fold_at t n i)
unfolding fold_at
fold_at-InRange t n i pos lt =
    ground (arith, fold_end t n i lt, fold_start t (t / n) i pos (fold_end t n i lt))

folds-InRange :
    (t n start k : ℕ)
    → 0 < t
    → start + k ≤ n
    → All (InRange t) (map (fold_at t n) (range_from start k))
unfolding range_from
folds-InRange t n start zero pos h = tt
folds-InRange t n start (suc k) pos h =
    (fold_at-InRange t n start pos (omega arith), folds-InRange t n (suc start) k pos (omega arith))

fold_of-InRange :
    (t : ℕ) (fs : List Fold) (i : ℕ) → 0 < t → All (InRange t) fs → InRange t (fold_of fs i)
fold_of-InRange t [] i pos h = (pos, omega arith)
fold_of-InRange t (f ∷ fs) zero pos h = h.0
fold_of-InRange t (f ∷ fs) (suc i) pos h = fold_of-InRange t fs i pos h.1

path-InRange :
    (t n : ℕ) (combo : List ℕ) → 0 < t → All (InRange t) (map (fold_of (folds t n)) combo)
unfolding folds
path-InRange t n [] pos = tt
path-InRange t n (i ∷ combo) pos = (
  fold_of-InRange t (folds t n) i pos (folds-InRange t n 0 n pos (omega arith)),
  path-InRange t n combo pos,
)

module _ (timestamps labels : List ℕ) (embargo_size n : ℕ) (nonempty : 0 < length timestamps) where
  paths_total :
      (combos : List (List ℕ))
      → All
          (λ ranges. (r : Split) × (split_one timestamps labels embargo_size ranges ≡ some r))
          (map (λ combo. map (fold_of (folds (length timestamps) n)) combo) combos)
  paths_total [] = tt
  paths_total (c ∷ combos) = (
    split_one_total timestamps labels embargo_size nonempty _
        (path-InRange (length timestamps) n c nonempty),
    paths_total combos,
  )

length-test_paths : (t n k : ℕ) → length (test_paths t n k) ≡ comb n k
unfolding test_paths
length-test_paths t n k =
    length-map (λ (combo : List ℕ). map (fold_of (folds t n)) combo)
      (combinations k (range_from 0 n))
    ∙ length-combinations k (range_from 0 n)
    ∙ ap (λ (m : ℕ). comb m k) (length-range_from 0 n)

-- On at least one observation the generator runs to its end, and yields `n_paths()` splits.
pub split_total :
    (cv : CombinatorialPurgedCv) (timestamps : List ℕ) (labels : Option (List ℕ)) (embargo_size : ℕ)
    → 0 < length timestamps
    → (splits : List Split) × (split cv timestamps labels embargo_size ≡ some splits)
      × (length splits ≡ n_paths cv)
unfolding split n_paths test_paths
split_total cv timestamps labels embargo_size nonempty =
    let (splits, p, q) =
      traverse_total _ (test_paths (length timestamps) cv.n_splits cv.n_test_splits) (
        paths_total timestamps (elim labels as (λ _. List ℕ) [ none ↦ timestamps | some l ↦ l ])
          embargo_size cv.n_splits nonempty
          (combinations cv.n_test_splits (range_from 0 cv.n_splits))) in
    (splits, p, q ∙ length-test_paths (length timestamps) cv.n_splits cv.n_test_splits)

-- The lists are as long as one another, and related entry by entry.
abbrev pub Paired {ℓ κ} : {A : Type ℓ} {B : Type κ} → (A → B → Type 0) → List A → List B → Type 0
Paired R [] [] = Unit
Paired R [] (y ∷ ys) = ⊥
Paired R (x ∷ xs) [] = ⊥
Paired R (x ∷ xs) (y ∷ ys) = R x y × Paired R xs ys

traverse-Paired {ℓ κ} :
    {A : Type ℓ} {B : Type κ} (R : A → B → Type 0) (f : A → Option B) (xs : List A) (ys : List B)
    → ((x : A) (y : B) → f x ≡ some y → R x y)
    → traverse f xs ≡ some ys
    → Paired R xs ys
unfolding traverse
traverse-Paired R f [] [] g h = tt
traverse-Paired R f [] (y ∷ ys) g h = cc
traverse-Paired R f (x ∷ xs) ys g h = elim (Option-cases (f x)) [
  | inl a ↦ absurd (cc (rw a at h))
  | inr (y, a) ↦ elim (Option-cases (traverse f xs)) [
    | inl b ↦ absurd (cc (rw (a, b) at h))
    | inr (zs, b) ↦
        let e : ◌≡◌ {A = List _} (y ∷ zs) ys = ground (arith, rw (a, b) at h) in
        subst (Paired R (x ∷ xs)) e (g x y a, traverse-Paired R f xs zs g b)
  ]
]

-- Where `split` runs to its end, the splits are those of the combinations of folds, in their order:
-- each pairs the training set that the method defines with the indices of the test ranges.
pub split-exact :
    (cv : CombinatorialPurgedCv) (timestamps labels : List ℕ) (embargo_size : ℕ)
    (splits : List Split)
    → split cv timestamps (some labels) embargo_size ≡ some splits
    → Paired
        (λ ranges r.
          (r.0 ≡ select (length timestamps) (is_train timestamps labels embargo_size ranges))
          × (r.1 ≡ select (length timestamps) (test_mask ranges)))
        (test_paths (length timestamps) cv.n_splits cv.n_test_splits)
        splits
unfolding split
split-exact cv timestamps labels embargo_size splits h =
    traverse-Paired _ (split_one timestamps labels embargo_size)
      (test_paths (length timestamps) cv.n_splits cv.n_test_splits) splits
      (λ ranges r e. split_one-exact timestamps labels embargo_size ranges r.0 r.1 e) h
