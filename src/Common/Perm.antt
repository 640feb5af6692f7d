-- ===== src/Common/Perm.antt =====
-- What the orders of one list have in common.
use mathlib.Core.Logic.{∥∥₁_elim, ∥∥₁_map}
use native.Mathlib.Nat.{ℕ_set}
use mathlib.Core.List.{Perm, Permᴰ}
use Prim.Native.Nat.{ℕ, ◌+◌}
use mathlib.Core.Path.{◌≡◌, refl, sym, ap, ◌∙◌, subst}
use mathlib.Core.Bool.{Bool, true}
use mathlib.Core.List.{List, [], ◌∷◌}
use native.Mathlib.Omega.{arith}
use mathlib.Core.Logic.{inl, inr}
use mathlib.Core.List.Permᴰ
use pigeon_trade.Common.Tests.{if◌then◌else◌, Bool-cases}
use pigeon_trade.Common.Lists.{length, All, keep}

module _ {ℓ} {A : Type ℓ} where
  -- The sum of a number for each element.
  abbrev pub total : (A → ℕ) → List A → ℕ
  total f [] = 0
  total f (x ∷ xs) = f x + total f xs

  total-permᴰ : (f : A → ℕ) {xs ys : List A} → Permᴰ xs ys → total f xs ≡ total f ys
  total-permᴰ f Permᴰ.nil = refl
  total-permᴰ f (Permᴰ.cons e p) = omega (arith, ap f e, total-permᴰ f p)
  total-permᴰ f (Permᴰ.swap e e') = omega (arith, ap f e, ap f e')
  total-permᴰ f (Permᴰ.trans p q) = total-permᴰ f p ∙ total-permᴰ f q

  pub total-perm : (f : A → ℕ) {xs ys : List A} → Perm xs ys → total f xs ≡ total f ys
  total-perm f p = ∥∥₁_elim p (ℕ_set _ _) (total-permᴰ f)

  length-total : (xs : List A) → length xs ≡ total (λ x. 1) xs
  length-total [] = refl
  length-total (x ∷ xs) = omega (arith, length-total xs)

  pub length-perm : {xs ys : List A} → Perm xs ys → length xs ≡ length ys
  length-perm {xs} {ys} p = length-total xs ∙ total-perm (λ x. 1) p ∙ sym (length-total ys)

  abbrev failing : (A → Bool) → A → ℕ
  failing p x = if p x then 0 else 1

  total-All : (p : A → Bool) (xs : List A) → All (λ x. p x ≡ true) xs → total (failing p) xs ≡ 0
  total-All p [] h = refl
  total-All p (x ∷ xs) h = ground (arith, total-All p xs h.1)

  All-total : (p : A → Bool) (xs : List A) → total (failing p) xs ≡ 0 → All (λ x. p x ≡ true) xs
  All-total p [] h = tt
  All-total p (x ∷ xs) h = ground (arith, All-total p xs)

  -- A test that all elements pass is passed in every order.
  pub All-perm :
      (p : A → Bool) {xs ys : List A}
      → Perm xs ys
      → All (λ x. p x ≡ true) ys
      → All (λ x. p x ≡ true) xs
  All-perm p {xs} {ys} q h = All-total p xs (total-perm (failing p) q ∙ total-All p ys h)

module _ {ℓ} {A : Type ℓ} (p : A → Bool) where
  keep_swap : (a b : A) (l : List A) → Permᴰ (keep p (a ∷ b ∷ l)) (keep p (b ∷ a ∷ l))
  unfolding keep
  keep_swap a b l = elim (Bool-cases (p a)) [
    | inl s ↦ elim (Bool-cases (p b)) [
      | inl t ↦ rw s (rw t (Permᴰ.swap refl refl))
      | inr t ↦ rw s (rw t (Permᴰ.refl (a ∷ keep p l)))
    ]
    | inr s ↦ rw s (Permᴰ.refl (keep p (b ∷ l)))
  ]

  keep-permᴰ : {xs ys : List A} → Permᴰ xs ys → Permᴰ (keep p xs) (keep p ys)
  unfolding keep
  keep-permᴰ Permᴰ.nil = Permᴰ.nil
  keep-permᴰ (Permᴰ.cons {a} {b} e q) = elim (Bool-cases (p b)) [
    | inl t ↦ rw (ap p e ∙ t) (rw t (Permᴰ.cons e (keep-permᴰ q)))
    | inr t ↦ rw (ap p e ∙ t) (rw t (keep-permᴰ q))
  ]
  keep-permᴰ (Permᴰ.swap {a} {b} {a'} {b'} {l} e e') =
      subst (λ x. Permᴰ (keep p (x ∷ b ∷ l)) (keep p (a' ∷ b' ∷ l))) (sym e)
        (subst (λ x. Permᴰ (keep p (b' ∷ x ∷ l)) (keep p (a' ∷ b' ∷ l))) (sym e')
          (keep_swap b' a' l))
  keep-permᴰ (Permᴰ.trans q r) = Permᴰ.trans (keep-permᴰ q) (keep-permᴰ r)

  pub keep-perm : {xs ys : List A} → Perm xs ys → Perm (keep p xs) (keep p ys)
  keep-perm q = ∥∥₁_map q keep-permᴰ
