-- ===== src/Validation/Bootstrap/Ends.antt =====
-- aqr/validation/reality_check.py: the loop of the block bootstrap.
use pigeon_trade.Common.{
  ℕ, zero, suc, ◌-◌, ◌≤◌, ◌<◌, min, none, some, List, [], ◌∷◌, ◌++◌, map, length, eqb,
  length-append, All, All-append, ◌≡◌, refl, ap, arith, Bool-cases, inl, inr,
}
use native.Mathlib.Nat.{mod-lt}
use pigeon_trade.Validation.Bootstrap.{block_at, resample, bootstrap}

length-block_at : (n start len : ℕ) → length (block_at n start len) ≡ len
unfolding block_at
length-block_at n start zero = refl
length-block_at n start (suc len) = omega (arith, length-block_at n (suc start) len)

All-block_at : (n start len : ℕ) → 0 < n → All (λ i. i < n) (block_at n start len)
unfolding block_at
All-block_at n start zero h = tt
All-block_at n start (suc len) h = (mod-lt start h, All-block_at n (suc start) len h)

module _ {Rng : Type 0} (draw : ℕ → Rng → ℕ × Rng) where
  resample-some :
      (fuel n block left : ℕ) (rng : Rng)
      → 0 < n
      → 1 ≤ block
      → left ≤ fuel
      → (is : List ℕ) × (rng' : Rng) × (resample draw fuel n block left rng ≡ some (is, rng'))
        × (length is ≡ left)
        × All (λ i. i < n) is
  unfolding resample
  resample-some zero n block left rng h b e = ([], rng, ground arith, omega arith, tt)
  resample-some (suc fuel) n block left rng h b e = elim (Bool-cases (eqb left 0)) [
    | inl done ↦ ([], rng, rw done, ground (arith, done), tt)
    | inr more ↦
        let len = min block left in
        let drawn = draw n rng in
        let some_left : 0 < left = ground (arith, more) in
        let (is, rng', run, all, below) =
          resample-some fuel n block (left - len) drawn.1 h b (omega arith) in
        (
          block_at n drawn.0 len ++ is,
          rng',
          rw more (rw run refl),
          omega (arith, length-append (block_at n drawn.0 len) is, length-block_at n drawn.0 len),
          All-append (λ i. i < n) (block_at n drawn.0 len) is (All-block_at n drawn.0 len h) below,
        )
  ]

  resample-none : (fuel n left : ℕ) (rng : Rng) → 0 < left → resample draw fuel n 0 left rng ≡ none
  unfolding resample block_at
  resample-none zero n left rng h = ground arith
  resample-none (suc fuel) n left rng h =
      ground (arith, resample-none fuel n (left - min 0 left) (draw n rng).1)

  -- n indices of the n rows.
  abbrev pub IsSample : ℕ → List ℕ → Type 0
  IsSample n is = (length is ≡ n) × All (λ i. i < n) is

  module _ {A : Type 0} (measure : List ℕ → A) where
    -- With a row or more and blocks of one row or more the bootstrap ends, with a measure of as many
    -- samples as it has rounds, each of as many indices as there are rows, all of them rows.
    pub bootstrap_ends :
        (n block rounds : ℕ) (rng : Rng)
        → 0 < n
        → 1 ≤ block
        → (samples : List (List ℕ)) × (bootstrap draw measure n block rounds rng
            ≡ some (map measure samples))
          × (length samples ≡ rounds)
          × All (IsSample n) samples
    unfolding bootstrap
    bootstrap_ends n block zero rng h b = ([], refl, refl, tt)
    bootstrap_ends n block (suc rounds) rng h b =
        let (is, rng', run, all, below) = resample-some n n block n rng h b (omega arith) in
        let (samples, rest, count, good) = bootstrap_ends n block rounds rng' h b in
        (is ∷ samples, rw run (rw rest refl), ap suc count, ((all, below), good))

    -- With blocks of no row the loop never ends, whatever the fuel.
    pub bootstrap_never :
        (n rounds : ℕ) (rng : Rng) → 0 < n → bootstrap draw measure n 0 (suc rounds) rng ≡ none
    unfolding bootstrap
    bootstrap_never n rounds rng h = rw (resample-none n n n rng h) refl
