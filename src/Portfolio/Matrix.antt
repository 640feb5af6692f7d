-- ===== src/Portfolio/Matrix.antt =====
-- aqr/tools/core.py: the matrix that validate_portfolio makes.
use pigeon_trade.Common.{
  ℕ, ◌-◌, ◌≤◌, List, [], ◌∷◌, map, length, length-drop, length-map, All, ◌≡◌, refl, arith,
}
use pigeon_trade.Research.{ℤ, BacktestResult, Pbo}
use pigeon_trade.Portfolio.{all_returns, min_len, last_returns, judged, validate_portfolio}

min_len-ge : (drs : List (List ℤ)) → All (λ dr. 40 ≤ length dr) drs → 40 ≤ min_len 500 drs
unfolding min_len
min_len-ge [] h = omega arith
min_len-ge (dr ∷ drs) h = omega (arith, h.0, min_len-ge drs h.1)

min_len-le : (drs : List (List ℤ)) → min_len 500 drs ≤ 500
unfolding min_len
min_len-le [] = omega arith
min_len-le (dr ∷ drs) = omega (arith, min_len-le drs)

All-last_returns :
    (n : ℕ) (drs : List (List ℤ))
    → n ≤ min_len 500 drs
    → All (λ c. length c ≡ n) (map (last_returns n) drs)
unfolding min_len
All-last_returns n [] h = tt
All-last_returns n (dr ∷ drs) h =
    (omega (arith, h, length-drop (length dr - n) dr), All-last_returns n drs (omega (arith, h)))

-- A matrix of these strategies: a column for each, all of one length from 40 to 500.
abbrev pub IsMatrixOf : List (List ℤ) → List (List ℤ) → Type 0
IsMatrixOf drs m =
    (n : ℕ) × (40 ≤ n)
    × (n ≤ 500)
    × (m ≡ map (last_returns n) drs)
    × (length m ≡ length drs)
    × All (λ c. length c ≡ n) m

-- With four strategies or more that have returns, each of forty returns or more, the verdict is that of
-- a matrix with a column for each strategy, its last returns, all of one length from 40 to 500.
pub validate_portfolio-IsMatrixOf :
    (probability : List (List ℤ) → ℕ → Pbo) (results : List BacktestResult)
    → 4 ≤ length (all_returns results)
    → All (λ dr. 40 ≤ length dr) (all_returns results)
    → (m : List (List ℤ)) × IsMatrixOf (all_returns results) m
      × (validate_portfolio probability results ≡ judged (probability m 8))
unfolding validate_portfolio
validate_portfolio-IsMatrixOf probability results h k =
    let drs = all_returns results in
    let n = min_len 500 drs in
    (
      map (last_returns n) drs,
      (
        n,
        min_len-ge drs k,
        min_len-le drs,
        refl,
        length-map (last_returns n) drs,
        All-last_returns n drs (omega arith),
      ),
      ground (arith, min_len-ge drs k),
    )
