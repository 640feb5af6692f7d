-- ===== src/Validation/Cpcv/Purging.antt =====
-- What the purge and the embargo leave of the training set (split, purged_kfold_indices).
use pigeon_trade.Common.{
  ℕ, zero, suc, ◌+◌, ◌≤◌, ◌<◌, min, Bool, true, false, ◌&&◌, ◌||◌, not, none, some, List, [], ◌∷◌,
  ◌≡◌, refl, arith, if◌then◌else◌, ltb, leb, eqb, length, get_elem?, any, Option-cases, inl, inr,
}
use pigeon_trade.Validation.Combinations.{range_from}
use pigeon_trade.Validation.Cpcv.{
  Mask, Fold, fill, overlaps, purge, clear, window_end, purge_window, purge_windows,
}

abbrev mem : ℕ → List ℕ → Bool
mem i [] = false
mem i (x ∷ xs) = if eqb i x then true else mem i xs

mem-range_from : (start n i : ℕ) → start ≤ i → i < start + n → mem i (range_from start n) ≡ true
unfolding range_from
mem-range_from start zero i h k = absurd (omega arith)
mem-range_from start (suc n) i h k = ground (arith, mem-range_from (suc start) n i)

-- The loop over the indices is a test of each index by itself.
purge_lem :
    (test : ℕ → Bool) (indices : List ℕ) (mask : Mask) (i : ℕ)
    → purge test indices mask i ≡ (if mem i indices then mask i && not (test i) else mask i)
unfolding purge
purge_lem test [] mask i = refl
purge_lem test (x ∷ indices) mask i =
    ground (arith, purge_lem test indices mask i, purge_lem test indices (clear x mask) i)

-- Whether a test window takes index `i` out of the training set: the label of observation `i` ends
-- in the window or later and the observation starts in it or earlier, or `i` is in the embargo.
abbrev pub is_excluded : List ℕ → List ℕ → ℕ → Fold → ℕ → Bool
is_excluded timestamps labels embargo_size (s, e) i = elim (get_elem? timestamps s) [
  | none ↦ false
  | some t_start ↦ elim (window_end timestamps e) [
    | none ↦ false
    | some t_end ↦
        overlaps timestamps labels t_start t_end i
        || (leb e i && ltb i (min (e + embargo_size) (length timestamps)))
  ]
]

module _ (timestamps labels : List ℕ) (embargo_size : ℕ) where
  fill-purge :
      (s e t_start t_end : ℕ) (mask : Mask) (i : ℕ)
      → i < length timestamps
      → fill e
          (min (e + embargo_size) (length timestamps))
          false
          (purge (overlaps timestamps labels t_start t_end) (range_from 0 (length timestamps)) mask)
          i
        ≡ (mask i
            && not (
                overlaps timestamps labels t_start t_end i
                || (leb e i && ltb i (min (e + embargo_size) (length timestamps)))))
  unfolding fill
  fill-purge s e t_start t_end mask i lt = ground (
    arith,
    mem-range_from 0 (length timestamps) i,
    purge_lem (overlaps timestamps labels t_start t_end) (range_from 0 (length timestamps)) mask i,
  )

  purge_window_start :
      (s e : ℕ) (mask : Mask)
      → get_elem? timestamps s ≡ none
      → purge_window timestamps labels embargo_size (s, e) mask ≡ none
  unfolding purge_window
  purge_window_start s e mask a = rw a

  purge_window_end :
      (s e : ℕ) (mask : Mask) (t_start : ℕ)
      → get_elem? timestamps s ≡ some t_start
      → window_end timestamps e ≡ none
      → purge_window timestamps labels embargo_size (s, e) mask ≡ none
  unfolding purge_window
  purge_window_end s e mask t_start a b = rw (a, b)

  purge_window-some :
      (s e : ℕ) (mask : Mask) (t_start t_end : ℕ)
      → get_elem? timestamps s ≡ some t_start
      → window_end timestamps e ≡ some t_end
      → purge_window timestamps labels embargo_size (s, e) mask
        ≡ some (
            fill e (min (e + embargo_size) (length timestamps)) false (
              purge
                (overlaps timestamps labels t_start t_end)
                (range_from 0 (length timestamps))
                mask))
  unfolding purge_window
  purge_window-some s e mask t_start t_end a b = rw (a, b)

  pub is_excluded-some :
      (s e t_start t_end i : ℕ)
      → get_elem? timestamps s ≡ some t_start
      → window_end timestamps e ≡ some t_end
      → is_excluded timestamps labels embargo_size (s, e) i ≡ (
          overlaps timestamps labels t_start t_end i
          || (leb e i && ltb i (min (e + embargo_size) (length timestamps))))
  is_excluded-some s e t_start t_end i a b = rw (a, is_excluded) (rw b)

  purge_window_lem :
      (w : Fold) (mask m : Mask) (i : ℕ)
      → purge_window timestamps labels embargo_size w mask ≡ some m
      → i < length timestamps
      → m i ≡ (mask i && not (is_excluded timestamps labels embargo_size w i))
  unfolding purge_window
  purge_window_lem (s, e) mask m i h lt = elim (Option-cases (get_elem? timestamps s)) [
    | inl a ↦ absurd (cc (purge_window_start s e mask a))
    | inr (t_start, a) ↦ elim (Option-cases (window_end timestamps e)) [
      | inl b ↦ absurd (cc (purge_window_end s e mask t_start a b))
      | inr (t_end, b) ↦ rw (is_excluded-some s e t_start t_end i a b) (
          ground (
            arith,
            purge_window-some s e mask t_start t_end a b,
            fill-purge s e t_start t_end mask i lt,
          ))
    ]
  ]

  pub purge_windows_lem :
      (ws : List Fold) (mask m : Mask) (i : ℕ)
      → purge_windows timestamps labels embargo_size ws mask ≡ some m
      → i < length timestamps
      → m i ≡ (mask i && not (any (λ w. is_excluded timestamps labels embargo_size w i) ws))
  unfolding purge_windows any
  purge_windows_lem [] mask m i h lt = ground arith
  purge_windows_lem (w ∷ ws) mask m i h lt =
      elim (Option-cases (purge_window timestamps labels embargo_size w mask)) [
        | inl a ↦ absurd (cc (rw a at h))
        | inr (m', a) ↦
            ground
              (arith, purge_window_lem w mask m' i a lt, purge_windows_lem ws m' m i (rw a at h) lt)
      ]
