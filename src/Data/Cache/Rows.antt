-- ===== src/Data/Cache/Rows.antt =====
-- aqr/data/ohlcv_cache.py: the rows that put_cache makes of a frame.
use pigeon_trade.Common.{
  ℕ, ◌+◌, String, Bool, true, false, Option, none, some, List, [], ◌∷◌, length, All, ◌==◌, eqb,
  if◌then◌else◌, ◌≡◌, ◌<◌, any, refl, ◌∙◌, arith,
}
use pigeon_trade.Common.Except.{ok}
use pigeon_trade.Data.{Float, nan, infinite, finite, Bar, Stored, at}
use pigeon_trade.Data.Cache.{rows_of, volume_of, row_of, kept, stored, is_large, too_large}

-- The first of two that is there.
abbrev pub either {ℓ} : {A : Type ℓ} → Option A → Option A → Option A
either none b = b
either (some a) b = some a

abbrev pub close_of : Option Stored → Option Float
close_of none = none
close_of (some row) = some row.close

-- The close of a bar, where it has one that is a number.
abbrev pub bar_close : Option Float → Option Float
bar_close none = none
bar_close (some nan) = none
bar_close (some infinite) = some infinite
bar_close (some (finite x)) = some (finite x)

-- The close of the last bar at a time that has one.
abbrev pub last_close : ℕ → List ℕ → List Bar → Option Float
last_close t [] bars = none
last_close t (u ∷ us) [] = none
last_close t (u ∷ us) (bar ∷ bars) =
    either (last_close t us bars) (if eqb u t then bar_close bar.close else none)

abbrev pub counted : Option Float → ℕ
counted none = 0
counted (some x) = 1

-- The number of bars with a close.
abbrev pub count_closes : List ℕ → List Bar → ℕ
count_closes [] bars = 0
count_closes (u ∷ us) [] = 0
count_closes (u ∷ us) (bar ∷ bars) = counted (bar_close bar.close) + count_closes us bars

-- No infinity, and a BIGINT.
abbrev pub IsStorable : Option Float → Type 0
IsStorable none = Unit
IsStorable (some nan) = Unit
IsStorable (some infinite) = ⊥
IsStorable (some (finite x)) = x < 9223372036854775808

abbrev pub HasVolume : Bar → Type 0
HasVolume bar = IsStorable bar.volume

abbrev row_is_large : Option Stored → Bool
row_is_large none = false
row_is_large (some row) = is_large row.volume

abbrev pub last_row : ℕ → List (ℕ × Stored) → Option Stored
last_row t [] = none
last_row t ((u, row) ∷ rows) = either (last_row t rows) (if eqb u t then some row else none)

pub volume_of_ok :
    (v : Option Float) → IsStorable v → (w : Option ℕ) × (volume_of v ≡ ok w) × (is_large w ≡ false)
volume_of_ok none h = (none, refl, refl)
volume_of_ok (some nan) h = (none, refl, refl)
volume_of_ok (some infinite) h = absurd h
volume_of_ok (some (finite x)) h = (some x, refl, ground (arith, h))

pub close_of-either :
    (a : Option Stored) (b : Option Stored)
    → close_of (either a b) ≡ either (close_of a) (close_of b)
close_of-either none b = refl
close_of-either (some a) b = refl

pub row_of_ok :
    (now : ℕ) (bar : Bar) (c : Option Float)
    → HasVolume bar
    → (row : Option Stored) × (row_of now bar c ≡ ok row)
      × (close_of row ≡ bar_close c)
      × (row_is_large row ≡ false)
row_of_ok now bar none h = (none, refl, refl, refl)
row_of_ok now bar (some nan) h = (none, refl, refl, refl)
row_of_ok now bar (some infinite) h =
    let (w, e, f) = volume_of_ok bar.volume h in
    (some (stored now bar infinite w), rw e refl, refl, f)
row_of_ok now bar (some (finite x)) h =
    let (w, e, f) = volume_of_ok bar.volume h in
    (some (stored now bar (finite x) w), rw e refl, refl, f)

pub any-kept :
    (u : ℕ) (row : Option Stored) (rows : List (ℕ × Stored))
    → row_is_large row ≡ false
    → any too_large rows ≡ false
    → any too_large (kept u row rows) ≡ false
unfolding any
any-kept u none rows h k = k
any-kept u (some r) rows h k = rw h k

pub either-if_none : (o : Option Float) (b : Bool) → o ≡ either o (if b then none else none)
either-if_none none true = refl
either-if_none none false = refl
either-if_none (some x) b = refl

pub close_of-either_if :
    (o : Option Stored) (b : Bool) (r : Stored)
    → close_of (either o (if b then some r else none))
      ≡ either (close_of o) (if b then some r.close else none)
close_of-either_if none true r = refl
close_of-either_if none false r = refl
close_of-either_if (some x) b r = refl

pub close_of-if :
    (b : Bool) (o : Option Stored)
    → close_of (if b then o else none) ≡ (if b then close_of o else none)
close_of-if true o = refl
close_of-if false o = refl

pub either_assoc :
    {A : Type 0} (a : Option A) (b : Bool) (r : A) (c : Option A)
    → either a (if b then some r else c) ≡ either (either a (if b then some r else none)) c
either_assoc none true r c = refl
either_assoc none false r c = refl
either_assoc (some x) b r c = refl

pub last_close-kept :
    (t u : ℕ) (row : Option Stored) (rows : List (ℕ × Stored))
    → close_of (last_row t (kept u row rows))
      ≡ either (close_of (last_row t rows)) (if eqb u t then close_of row else none)
last_close-kept t u none rows = either-if_none (close_of (last_row t rows)) (eqb u t)
last_close-kept t u (some r) rows = close_of-either_if (last_row t rows) (eqb u t) r

pub length-kept :
    (u : ℕ) (row : Option Stored) (rows : List (ℕ × Stored))
    → length (kept u row rows) ≡ counted (close_of row) + length rows
length-kept u none rows = omega arith
length-kept u (some r) rows = omega arith

pub rows_of_ok :
    (now : ℕ) (ts : List ℕ) (bars : List Bar)
    → All HasVolume bars
    → (rows : List (ℕ × Stored)) × (rows_of now ts bars ≡ ok rows)
      × ((t : ℕ) → close_of (last_row t rows) ≡ last_close t ts bars)
      × (length rows ≡ count_closes ts bars)
      × (any too_large rows ≡ false)
unfolding rows_of any
rows_of_ok now [] bars h = ([], refl, (λ t. refl), refl, refl)
rows_of_ok now (u ∷ us) [] h = ([], refl, (λ t. refl), refl, refl)
rows_of_ok now (u ∷ us) (bar ∷ bars) h =
    let (row, e, c, f) = row_of_ok now bar bar.close h.0 in
    let (rows, e', l, n, fs) = rows_of_ok now us bars h.1 in
    (
      kept u row rows,
      rw e (rw e' refl),
      (λ t. last_close-kept t u row rows ∙ (rw (l t) (rw c refl))),
      length-kept u row rows ∙ (rw n (rw c refl)),
      any-kept u row rows f fs,
    )

abbrev pub answer : ℕ → Option (List (ℕ × Stored)) → Option Float
answer t none = none
answer t (some rows) = close_of (at t rows)

-- The tickers that invalidate is about.
abbrev pub names : Option String → String → Bool
names none k = true
names (some j) k = j == k

pub no_rows :
    (now : ℕ) (ts : List ℕ) (bars : List Bar) → length bars ≡ 0 → rows_of now ts bars ≡ ok []
unfolding rows_of
no_rows now [] bars h = refl
no_rows now (t ∷ ts) [] h = refl
no_rows now (t ∷ ts) (bar ∷ bars) h = absurd (omega arith)
