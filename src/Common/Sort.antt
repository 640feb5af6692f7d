-- ===== src/Common/Sort.antt =====
-- `sorted(xs, key=key, reverse=True)`: stable, the greatest key first.
use mathlib.Core.List.Perm
use mathlib.Core.List.{Perm}
use pigeon_trade.Common.Lists.{length, take, drop, keep, All, All-take, All-drop}
use pigeon_trade.Common.Tests.{if◌then◌else◌, leb, Bool-cases}
use Prim.Native.Nat.{ℕ, zero, suc, ◌≤◌}
use mathlib.Core.Path.{◌≡◌, refl, sym, ap, ◌∙◌}
use mathlib.Core.Bool.{Bool, true, false}
use mathlib.Core.Logic.{inl, inr}
use mathlib.Core.List.{List, [], ◌∷◌}
use native.Mathlib.Omega.{arith}

module _ {ℓ} {A : Type ℓ} (key : A → ℕ) where
  unfoldable pub insert_desc : A → List A → List A
  insert_desc x [] = x ∷ []
  insert_desc x (y ∷ ys) =
      let rest = insert_desc x ys in if leb (key y) (key x) then x ∷ y ∷ ys else y ∷ rest

  unfoldable pub sort_desc : List A → List A
  unfolding insert_desc
  sort_desc [] = []
  sort_desc (x ∷ xs) = insert_desc x (sort_desc xs)

  -- Each element's key is at least those behind it.
  abbrev pub IsDescending : List A → Type 0
  IsDescending [] = Unit
  IsDescending (x ∷ xs) = All (λ y. key y ≤ key x) xs × IsDescending xs

  All-insert_desc :
      (P : A → Type 0) (x : A) (ys : List A) → P x → All P ys → All P (insert_desc x ys)
  unfolding insert_desc
  All-insert_desc P x [] p h = (p, tt)
  All-insert_desc P x (y ∷ ys) p h = ground (arith, All-insert_desc P x ys p h.1)

  All-le : (a b : ℕ) (ys : List A) → a ≤ b → All (λ y. key y ≤ a) ys → All (λ y. key y ≤ b) ys
  All-le a b [] h p = tt
  All-le a b (y ∷ ys) h p = (omega arith, All-le a b ys h p.1)

  insert_desc-IsDescending :
      (x : A) (ys : List A) → IsDescending ys → IsDescending (insert_desc x ys)
  unfolding insert_desc
  insert_desc-IsDescending x [] h = (tt, tt)
  insert_desc-IsDescending x (y ∷ ys) h = ground (
    arith,
    All-le (key y) (key x) ys,
    All-insert_desc (λ z. key z ≤ key y) x ys,
    insert_desc-IsDescending x ys h.1,
  )

  pub sort_desc-IsDescending : (xs : List A) → IsDescending (sort_desc xs)
  unfolding sort_desc
  sort_desc-IsDescending [] = tt
  sort_desc-IsDescending (x ∷ xs) =
      insert_desc-IsDescending x (sort_desc xs) (sort_desc-IsDescending xs)

  insert_desc-perm : (x : A) (ys : List A) → Perm (insert_desc x ys) (x ∷ ys)
  unfolding insert_desc
  insert_desc-perm x [] = Perm.refl (x ∷ [])
  insert_desc-perm x (y ∷ ys) =
      let moved = Perm.trans (Perm.cons y (insert_desc-perm x ys)) (Perm.swap x y ys) in
      ground (arith, moved, Perm.refl (x ∷ y ∷ ys))

  pub sort_desc-perm : (xs : List A) → Perm (sort_desc xs) xs
  unfolding sort_desc
  sort_desc-perm [] = Perm.refl []
  sort_desc-perm (x ∷ xs) =
      Perm.trans (insert_desc-perm x (sort_desc xs)) (Perm.cons x (sort_desc-perm xs))

  length-insert_desc : (x : A) (ys : List A) → length (insert_desc x ys) ≡ suc (length ys)
  unfolding insert_desc
  length-insert_desc x [] = refl
  length-insert_desc x (y ∷ ys) = ground (arith, length-insert_desc x ys)

  pub length-sort_desc : (xs : List A) → length (sort_desc xs) ≡ length xs
  unfolding sort_desc
  length-sort_desc [] = refl
  length-sort_desc (x ∷ xs) =
      omega (arith, length-insert_desc x (sort_desc xs), length-sort_desc xs)

  -- What a cut of a sorted list keeps has keys at least those of what it drops.
  pub take-dominates :
      (n : ℕ) (xs : List A)
      → IsDescending xs
      → All (λ x. All (λ y. key y ≤ key x) (drop n xs)) (take n xs)
  take-dominates zero xs h = tt
  take-dominates (suc n) [] h = tt
  take-dominates (suc n) (x ∷ xs) h =
      (All-drop (λ y. key y ≤ key x) n xs h.0, take-dominates n xs h.1)

  pub take-IsDescending : (n : ℕ) (xs : List A) → IsDescending xs → IsDescending (take n xs)
  take-IsDescending zero xs h = tt
  take-IsDescending (suc n) [] h = tt
  take-IsDescending (suc n) (x ∷ xs) h =
      (All-take (λ y. key y ≤ key x) n xs h.0, take-IsDescending n xs h.1)

  -- A test that a greater key passes if a smaller one does.
  abbrev pub IsMonotone : (A → Bool) → Type ℓ
  IsMonotone p = (x y : A) → key y ≤ key x → p y ≡ true → p x ≡ true

  keep_failing :
      (p : A → Bool) (x : A) (xs : List A)
      → IsMonotone p
      → p x ≡ false
      → All (λ y. key y ≤ key x) xs
      → keep p xs ≡ []
  unfolding keep
  keep_failing p x [] m f h = refl
  keep_failing p x (y ∷ ys) m f h = elim (Bool-cases (p y)) [
    | inl e ↦ absurd (ground (arith, m x y h.0 e))
    | inr e ↦ rw e (keep_failing p x ys m f h.1)
  ]

  -- On a sorted list such a test commutes with a cut.
  pub keep-take :
      (p : A → Bool) (n : ℕ) (xs : List A)
      → IsMonotone p
      → IsDescending xs
      → keep p (take n xs) ≡ take n (keep p xs)
  unfolding keep
  keep-take p zero xs m h = refl
  keep-take p (suc n) [] m h = refl
  keep-take p (suc n) (x ∷ xs) m h = elim (Bool-cases (p x)) [
    | inl e ↦ rw e (ap (λ ys. x ∷ ys) (keep-take p n xs m h.1))
    | inr e ↦ rw e (
        keep_failing p x (take n xs) m e (All-take (λ y. key y ≤ key x) n xs h.0)
        ∙ sym (ap (take (suc n)) (keep_failing p x xs m e h.0)))
  ]
