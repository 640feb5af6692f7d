-- ===== src/Hypotheses/Signals.antt =====
-- aqr/pipeline/hypotheses.py: the signals _sma_crossover, _mean_reversion and _breakout. Prices
-- are whole numbers of the least price step, and averages and deviations are exact: a quotient is
-- compared by multiplying out. A threshold counts tenths. Windows have one price or more.
use pigeon_trade.Common.{
  take-take, ℕ, zero, suc, ◌+◌, ◌-◌, ◌*◌, ◌≤◌, ◌<◌, min, max, Bool, false, ◌&&◌, Option, none, some,
  List, [], ◌∷◌, length, get_elem?, take, drop, ltb, leb, if◌then◌else◌, ◌≡◌, refl, arith, ap,
  length-take,
}

-- -1, 0 and +1
pub data Position : Type 0 where
  short : Position
  flat : Position
  long : Position

-- A family's function with its parameters.
pub data Signal : Type 0 where
  sma_crossover : ℕ → ℕ → Signal
  mean_reversion : ℕ → ℕ → Signal
  breakout : ℕ → Signal

-- The last `n` prices at index `i`; `none` is the NaN of a window that is not full.
abbrev pub window : ℕ → List ℕ → ℕ → Option (List ℕ)
window n prices i = if leb n (suc i) then some (take n (drop (suc i - n) prices)) else none

abbrev sum : List ℕ → ℕ
sum [] = 0
sum (x ∷ xs) = x + sum xs

abbrev squares : List ℕ → ℕ
squares [] = 0
squares (x ∷ xs) = x * x + squares xs

abbrev greatest : List ℕ → ℕ
greatest [] = 0
greatest (x ∷ xs) = max x (greatest xs)

abbrev least : ℕ → List ℕ → ℕ
least m [] = m
least m (x ∷ xs) = least (min m x) xs

-- prices.iloc[i]
abbrev price : List ℕ → ℕ → ℕ
price prices i = elim (get_elem? prices i) [ none ↦ 0 | some p ↦ p ]

-- sf > ss: the fast average above the slow one; false with a NaN
abbrev above : ℕ → ℕ → Option (List ℕ) → Option (List ℕ) → Bool
above fast slow (some f) (some s) = ltb (sum s * fast) (sum f * slow)
above fast slow none s = false
above fast slow (some f) none = false

-- gap > threshold * sd, for a gap of `n` times the price from `n` times the average, where
-- sd * sd = (n * squares - sum * sum) / (n * (n - 1))
abbrev beyond : ℕ → ℕ → ℕ → List ℕ → Bool
beyond n threshold gap w =
    ltb (threshold * threshold * n * (n * squares w - sum w * sum w)) (100 * gap * gap * (n - 1))

abbrev reverted : ℕ → ℕ → ℕ → Option (List ℕ) → Position
reverted n threshold p none = flat
reverted n threshold p (some w) =
    if ltb (n * p) (sum w) && beyond n threshold (sum w - n * p) w
    then long
    else if ltb (sum w) (n * p) && beyond n threshold (n * p - sum w) w
    then short
    else flat

abbrev broken : ℕ → Option (List ℕ) → Position → Position
broken p none before = before
broken p (some []) before = before
broken p (some (x ∷ w)) before =
    if leb (greatest (x ∷ w)) p then long else if leb p (least x w) then short else before

-- The number of first entries that the signal sets to zero.
abbrev pub warm_up : Signal → ℕ
warm_up (sma_crossover fast slow) = slow
warm_up (mean_reversion lookback threshold) = lookback
warm_up (breakout lookback) = lookback

-- The entry at index `i`, which is behind the warm-up; `before` is that of the index before.
unfoldable pub entry : Signal → List ℕ → ℕ → Position → Position
entry (sma_crossover fast slow) prices i before =
    if above fast slow (window fast prices i) (window slow prices i) then long else short
entry (mean_reversion lookback threshold) prices i before =
    reverted lookback threshold (price prices i) (window lookback prices i)
entry (breakout lookback) prices i before =
    broken (price prices i) (window lookback prices (i - 1)) before

unfoldable pub position_at : Signal → List ℕ → ℕ → Position → Position
unfolding entry
position_at s prices i before = if ltb i (warm_up s) then flat else entry s prices i before

-- The entries from index `i` on.
unfoldable pub positions_from : Signal → List ℕ → ℕ → Position → ℕ → List Position
unfolding position_at
positions_from s prices i before zero = []
positions_from s prices i before (suc left) =
    let p = position_at s prices i before in p ∷ positions_from s prices (suc i) p left

-- spec.fn(prices)
unfoldable pub signal : Signal → List ℕ → List Position
unfolding positions_from
signal s prices = positions_from s prices 0 flat (length prices)

get_elem?-take : (k i : ℕ) (xs : List ℕ) → i < k → get_elem? (take k xs) i ≡ get_elem? xs i
get_elem?-take zero i xs h = absurd (omega arith)
get_elem?-take (suc k) i [] h = refl
get_elem?-take (suc k) zero (x ∷ xs) h = refl
get_elem?-take (suc k) (suc i) (x ∷ xs) h = get_elem?-take k i xs (omega arith)

price-take : (k i : ℕ) (xs : List ℕ) → i < k → price (take k xs) i ≡ price xs i
price-take k i xs h = rw (get_elem?-take k i xs h, price) refl

take-drop-take :
    (n s k : ℕ) (xs : List ℕ) → s + n ≤ k → take n (drop s (take k xs)) ≡ take n (drop s xs)
take-drop-take n zero k xs h = take-take n k xs (omega arith)
take-drop-take n (suc s) zero xs h = absurd (omega arith)
take-drop-take n (suc s) (suc k) [] h = refl
take-drop-take n (suc s) (suc k) (x ∷ xs) h = take-drop-take n s k xs (omega arith)

window-take : (n k i : ℕ) (xs : List ℕ) → i < k → window n (take k xs) i ≡ window n xs i
window-take n k i xs h = ground (arith, take-drop-take n (suc i - n) k xs)

entry-take :
    (s : Signal) (prices : List ℕ) (k i : ℕ) (before : Position)
    → i < k
    → entry s (take k prices) i before ≡ entry s prices i before
unfolding entry
entry-take (sma_crossover fast slow) prices k i before h =
    rw (window-take fast k i prices h) (rw (window-take slow k i prices h) refl)
entry-take (mean_reversion lookback threshold) prices k i before h =
    rw (window-take lookback k i prices h) (rw (price-take k i prices h) refl)
entry-take (breakout lookback) prices k i before h =
    rw (window-take lookback k (i - 1) prices (omega arith)) (rw (price-take k i prices h) refl)

position_at-take :
    (s : Signal) (prices : List ℕ) (k i : ℕ) (before : Position)
    → i < k
    → position_at s (take k prices) i before ≡ position_at s prices i before
unfolding position_at
position_at-take s prices k i before h = rw (entry-take s prices k i before h) refl

positions_from-take :
    (s : Signal) (prices : List ℕ) (k i : ℕ) (before : Position) (left n m : ℕ)
    → i + n ≡ k
    → m ≡ min n left
    → positions_from s (take k prices) i before m ≡ take n (positions_from s prices i before left)
unfolding positions_from
positions_from-take s prices k i before zero zero zero h e = refl
positions_from-take s prices k i before zero (suc n) zero h e = refl
positions_from-take s prices k i before (suc left) zero zero h e = refl
positions_from-take s prices k i before (suc left) (suc n) zero h e = absurd (omega arith)
positions_from-take s prices k i before zero zero (suc m) h e = absurd (omega arith)
positions_from-take s prices k i before zero (suc n) (suc m) h e = absurd (omega arith)
positions_from-take s prices k i before (suc left) zero (suc m) h e = absurd (omega arith)
positions_from-take s prices k i before (suc left) (suc n) (suc m) h e =
    let p = position_at s prices i before in
    rw (position_at-take s prices k i before (omega arith)) (
      ap (λ t. p ∷ t)
        (positions_from-take s prices k (suc i) p left n m (omega arith) (omega arith)))

-- The signals of the SMA crossover, of the mean reversion and of the breakout do not look ahead: the
-- positions of each on the first k prices are the first k of those on all of them.
pub signal-take :
    (s : Signal) (k : ℕ) (prices : List ℕ) → signal s (take k prices) ≡ take k (signal s prices)
unfolding signal
signal-take s k prices =
    positions_from-take s prices k 0 flat (length prices) k (length (take k prices)) (omega arith)
      (length-take k prices)
