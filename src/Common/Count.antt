-- ===== src/Common/Count.antt =====
-- How often a number stands in a list: the queues that are named by numbers.
use Prim.Native.Nat.{ℕ, suc, ◌<◌}
use mathlib.Core.Path.{◌≡◌, refl}
use mathlib.Core.List.{List, [], ◌∷◌, ◌++◌}
use native.Mathlib.Omega.{arith}
use pigeon_trade.Common.Tests.{if◌then◌else◌, eqb}
use pigeon_trade.Common.Lists.{All}

abbrev pub count : ℕ → List ℕ → ℕ
count q [] = 0
count q (p ∷ ps) = if eqb p q then suc (count q ps) else count q ps

pub count-fresh : (q : ℕ) (ids : List ℕ) → All (λ p. p < q) ids → count q ids ≡ 0
count-fresh q [] h = refl
count-fresh q (p ∷ ids) h = ground (arith, count-fresh q ids h.1)

pub count-append_self : (q : ℕ) (ids : List ℕ) → count q (ids ++ q ∷ []) ≡ suc (count q ids)
count-append_self q [] = ground arith
count-append_self q (p ∷ ids) = ground (arith, count-append_self q ids)
