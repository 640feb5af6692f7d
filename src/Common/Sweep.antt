-- ===== src/Common/Sweep.antt =====
-- Collecting the keys of a dict whose values pass a test, and popping them one by one.
use text.Mathlib.Text.{◌==◌}
use text.Mathlib.TextEquality.{eq_iff}
use Prim.Native.String.{String}
use mathlib.Core.Path.{◌≡◌, refl}
use mathlib.Core.Option.{Option, none, some}
use mathlib.Core.Bool.{Bool, true, false}
use mathlib.Core.List.{List, [], ◌∷◌, map}
use native.Mathlib.Omega.{arith}
use pigeon_trade.Common.Tests.{if◌then◌else◌}
use pigeon_trade.Common.Lists.{keep}
use pigeon_trade.Common.Dict.{
  Dict, lookup, remove, contains, Distinct, lookup-remove, Distinct-remove,
}

abbrev pub mem : String → List String → Bool
mem r [] = false
mem r (x ∷ xs) = if x == r then true else mem r xs

module _ {ℓ} {V : Type ℓ} where
  -- [k for k, v in d.items() if test(v)]
  unfoldable pub stale_keys : (V → Bool) → Dict V → List String
  stale_keys test d = map (λ e. e.0) (keep (λ e. test e.1) d)

  -- for k in ks: d.pop(k, None)
  unfoldable pub remove_all : List String → Dict V → Dict V
  remove_all [] d = d
  remove_all (k ∷ ks) d = remove_all ks (remove k d)

  pub lookup-remove_all :
      (ks : List String) (k : String) (d : Dict V)
      → lookup k (remove_all ks d) ≡ (if mem k ks then none else lookup k d)
  unfolding remove_all
  lookup-remove_all [] k d = refl
  lookup-remove_all (j ∷ ks) k d =
      ground (arith, lookup-remove_all ks k (remove j d), lookup-remove j k d, eq_iff j k)

  pub Distinct-remove_all :
      (ks : List String) (d : Dict V) → Distinct d → Distinct (remove_all ks d)
  unfolding remove_all
  Distinct-remove_all [] d h = h
  Distinct-remove_all (k ∷ ks) d h = Distinct-remove_all ks (remove k d) (Distinct-remove k d h)

  mem-stale_keys_absent :
      (test : V → Bool) (k : String) (d : Dict V)
      → contains k d ≡ false
      → mem k (stale_keys test d) ≡ false
  unfolding stale_keys contains keep
  mem-stale_keys_absent test k [] h = refl
  mem-stale_keys_absent test k ((j, v) ∷ d) h =
      ground (arith, mem-stale_keys_absent test k d, eq_iff j k)

  mem-stale_keys :
      (test : V → Bool) (k : String) (d : Dict V)
      → Distinct d
      → mem k (stale_keys test d)
        ≡ elim (lookup k d) as (λ _. Bool) [ none ↦ false | some v ↦ test v ]
  unfolding stale_keys lookup keep
  mem-stale_keys test k [] h = refl
  mem-stale_keys test k ((j, v) ∷ d) h =
      ground (arith, mem-stale_keys test k d h.1, mem-stale_keys_absent test k d, eq_iff j k)

  -- What a sweep leaves under a key.
  abbrev pub swept : (V → Bool) → Option V → Option V
  swept test none = none
  swept test (some v) = if test v then none else some v

  swept_lem :
      (test : V → Bool) (o : Option V)
      → (if (elim o as (λ _. Bool) [ none ↦ false | some v ↦ test v ]) then none else o)
        ≡ swept test o
  swept_lem test none = refl
  swept_lem test (some v) = refl

  -- A sweep drops exactly the entries that pass the test.
  pub lookup-sweep :
      (test : V → Bool) (k : String) (d : Dict V)
      → Distinct d
      → lookup k (remove_all (stale_keys test d) d) ≡ swept test (lookup k d)
  lookup-sweep test k d h =
      rw (lookup-remove_all (stale_keys test d) k d)
        (rw (mem-stale_keys test k d h) (swept_lem test (lookup k d)))
