-- ===== src/Validation/Combinations.antt =====
-- `itertools.combinations` and `math.comb`.
use pigeon_trade.Common.{
  ℕ, zero, suc, ◌+◌, List, [], ◌∷◌, ◌++◌, map, ◌≡◌, refl, ap, arith, length, length-append,
  length-map, All, All-append,
}

-- The k-element subsequences, in the order in which `combinations` yields them.
unfoldable pub combinations {ℓ} : {A : Type ℓ} → ℕ → List A → List (List A)
combinations zero xs = [] ∷ []
combinations (suc k) [] = []
combinations (suc k) (x ∷ xs) = map (◌∷◌ x) (combinations k xs) ++ combinations (suc k) xs

unfoldable pub comb : ℕ → ℕ → ℕ
comb n zero = 1
comb zero (suc k) = 0
comb (suc n) (suc k) = comb n k + comb n (suc k)

-- range(start, start + n)
unfoldable pub range_from : ℕ → ℕ → List ℕ
range_from start zero = []
range_from start (suc n) = start ∷ range_from (suc start) n

pub length-combinations {ℓ} :
    {A : Type ℓ} (k : ℕ) (xs : List A) → length (combinations k xs) ≡ comb (length xs) k
unfolding combinations comb
length-combinations zero [] = refl
length-combinations zero (x ∷ xs) = refl
length-combinations (suc k) [] = refl
length-combinations (suc k) (x ∷ xs) = omega (
  arith,
  length-append (map (◌∷◌ x) (combinations k xs)) (combinations (suc k) xs),
  length-map (◌∷◌ x) (combinations k xs),
  length-combinations k xs,
  length-combinations (suc k) xs,
)

pub length-range_from : (start n : ℕ) → length (range_from start n) ≡ n
unfolding range_from
length-range_from start zero = refl
length-range_from start (suc n) = ap suc (length-range_from (suc start) n)

module _ {ℓ κ} {A : Type ℓ} (P : A → Type κ) where
  All-map_cons :
      (x : A) (xss : List (List A))
      → P x
      → All (λ xs. All P xs) xss
      → All (λ xs. All P xs) (map (◌∷◌ x) xss)
  All-map_cons x [] p h = tt
  All-map_cons x (xs ∷ xss) p h = ((p, h.0), All-map_cons x xss p h.1)

  -- A combination is drawn from the list.
  pub All-combinations : (k : ℕ) (xs : List A) → All P xs → All (λ ys. All P ys) (combinations k xs)
  unfolding combinations
  All-combinations zero xs h = (tt, tt)
  All-combinations (suc k) [] h = tt
  All-combinations (suc k) (x ∷ xs) h =
      All-append (λ ys. All P ys) (map (◌∷◌ x) (combinations k xs)) (combinations (suc k) xs)
        (All-map_cons x (combinations k xs) h.0 (All-combinations k xs h.1))
        (All-combinations (suc k) xs h.1)
