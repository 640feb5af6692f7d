-- ===== src/Hypotheses/Budget.antt =====
-- aqr/pipeline/hypotheses.py: what generate_hypotheses returns for the budget `n`.
use pigeon_trade.Common.{
  ℕ, zero, suc, ◌%◌, ◌<◌, ◌≡◌, refl, String, none, some, List, [], ◌∷◌, length, get_elem?, All,
  arith, map, All-append,
}
use pigeon_trade.Common.Dict.{lookup}
use pigeon_trade.Common.Except.{ok}
use pigeon_trade.Research.{Hypothesis}
use pigeon_trade.Hypotheses.{
  kept_params, make_spec, make_one, rounds, generated, combo_at, combos, generate_hypotheses,
}

-- The families that `_sample_params` has parameters for.
pub data IsKnown : String → Type 0 where
  momentum : IsKnown "momentum"
  mean_reversion : IsKnown "mean_reversion"
  breakout : IsKnown "breakout"
  volatility : IsKnown "volatility"

abbrev pub IsKnownPair : String × String → Type 0
IsKnownPair c = IsKnown c.1

All-get_elem? :
    {A : Type 0} (P : A → Type 0) (d : A) (xs : List A) (i : ℕ)
    → i < length xs
    → All P xs
    → P (elim (get_elem? xs i) [ none ↦ d | some x ↦ x ])
All-get_elem? P d [] i l h = absurd (omega arith)
All-get_elem? P d (x ∷ xs) zero l h = h.0
All-get_elem? P d (x ∷ xs) (suc i) l h = All-get_elem? P d xs i (omega arith) h.1

All-pairs :
    (t : String) (families : List String)
    → All IsKnown families
    → All IsKnownPair (map (λ f. (t, f)) families)
All-pairs t [] h = tt
All-pairs t (f ∷ fs) h = (h.0, All-pairs t fs h.1)

All-combos :
    (tickers families : List String)
    → All IsKnown families
    → All IsKnownPair (combos tickers families)
unfolding combos
All-combos [] families h = tt
All-combos (t ∷ ts) families h =
    All-append IsKnownPair (map (λ f. (t, f)) families) (combos ts families)
      (All-pairs t families h) (All-combos ts families h)

combos-nonempty :
    (tickers families : List String)
    → 0 < length tickers
    → 0 < length families
    → 0 < length (combos tickers families)
unfolding combos
combos-nonempty [] families p q = absurd (omega arith)
combos-nonempty (t ∷ ts) [] p q = absurd (omega arith)
combos-nonempty (t ∷ ts) (f ∷ fs) p q = omega arith

module _ (show : String → ℕ → String) {Rng : Type 0} (draw : ℕ → Rng → ℕ × Rng) where
  -- A hypothesis of the pair, which make_one_with_params builds again from its own parameters.
  abbrev pub IsSpecOf : String × String → Hypothesis → Type 0
  IsSpecOf c s =
      (s.ticker ≡ c.0)
      × (s.family ≡ c.1)
      × (make_spec show s.family s.ticker s.params ≡ ok (some s))

  make_one_known :
      (family ticker : String) (rng : Rng)
      → IsKnown family
      → (s : Hypothesis) × (rng' : Rng) × (make_one show draw family ticker rng ≡ ok (some s, rng'))
        × IsSpecOf (ticker, family) s
  unfolding make_one make_spec lookup kept_params
  make_one_known family ticker rng momentum = (_, _, refl, (refl, refl, refl))
  make_one_known family ticker rng mean_reversion = (_, _, refl, (refl, refl, refl))
  make_one_known family ticker rng breakout = (_, _, refl, (refl, refl, refl))
  make_one_known family ticker rng volatility = (_, _, refl, (refl, refl, refl))

  -- The pairs that the rounds from `i` on take: combos[i % len(combos)].
  abbrev pub pairs_from : List (String × String) → ℕ → ℕ → List (String × String)
  pairs_from cs i zero = []
  pairs_from cs i (suc left) = combo_at show draw cs i ∷ pairs_from cs (suc i) left

  -- The hypotheses stand for these pairs, one each, in order.
  abbrev pub AreSpecsOf : List (String × String) → List Hypothesis → Type 0
  AreSpecsOf [] [] = Unit
  AreSpecsOf [] (s ∷ ss) = ⊥
  AreSpecsOf (c ∷ cs) [] = ⊥
  AreSpecsOf (c ∷ cs) (s ∷ ss) = IsSpecOf c s × AreSpecsOf cs ss

  rounds_known :
      (cs : List (String × String)) (i left : ℕ) (rng : Rng)
      → ((j : ℕ) → IsKnown (combo_at show draw cs j).1)
      → (ss : List Hypothesis) × (rounds show draw cs i left rng ≡ ok ss)
        × AreSpecsOf (pairs_from cs i left) ss
  unfolding rounds
  rounds_known cs i zero rng h = ([], refl, tt)
  rounds_known cs i (suc left) rng h =
      let c = combo_at show draw cs i in
      let (s, rng', e, p) = make_one_known c.1 c.0 rng (h i) in
      let (ss, e', p') = rounds_known cs (suc i) left rng' h in (s ∷ ss, rw e (rw e' refl), (p, p'))

  combo_at_known :
      (cs : List (String × String))
      → 0 < length cs
      → All IsKnownPair cs
      → (i : ℕ) → IsKnown (combo_at show draw cs i).1
  combo_at_known cs p h i = All-get_elem? IsKnownPair ("", "") cs (i % length cs) (omega arith) h

  generated_known :
      (cs : List (String × String)) (n : ℕ) (rng : Rng)
      → 0 < length cs
      → All IsKnownPair cs
      → (ss : List Hypothesis) × (generated show draw cs n rng ≡ ok ss)
        × AreSpecsOf (pairs_from cs 0 n) ss
  generated_known [] n rng p h = absurd (omega arith)
  generated_known (c ∷ cs) n rng p h = rounds_known (c ∷ cs) 0 n rng (combo_at_known (c ∷ cs) p h)

  -- With known families and one pair or more, the generator does not raise and spends its whole
  -- budget: the i-th hypothesis stands for the pair combos[i % len(combos)], and
  -- make_one_with_params builds each one again from its own family, ticker and parameters.
  pub generate_hypotheses-AreSpecsOf :
      (tickers families : List String) (n : ℕ) (rng : Rng)
      → 0 < length tickers
      → 0 < length families
      → All IsKnown families
      → (ss : List Hypothesis) × (generate_hypotheses show draw tickers families n rng ≡ ok ss)
        × AreSpecsOf (pairs_from (combos tickers families) 0 n) ss
  unfolding generate_hypotheses
  generate_hypotheses-AreSpecsOf tickers families n rng p q h =
      generated_known (combos tickers families) n rng (combos-nonempty tickers families p q)
        (All-combos tickers families h)
