-- ===== src/Validation/Pbo/Best.antt =====
-- aqr/validation/pbo.py: the strategy that np.argmax picks, on ratios that are no NaN.
use pigeon_trade.Common.{
  ℕ, zero, suc, ◌≤◌, ◌<◌, true, false, some, List, [], ◌∷◌, ◌++◌, length, length-append, get_elem?,
  take, All, All-append, append_assoc, ◌≡◌, refl, subst, ap, arith, Bool-cases, inl, inr,
}
use pigeon_trade.Validation.Pbo.{Statistics, best_from, argmax, value_at}

-- What the code relies on of `<=`; a float that is no NaN is at most itself.
pub record IsOrdered {F : Type 0} (stats : Statistics F) : Type 0 where
  pub comparable :
      (x y : F)
      → stats.le x x ≡ true
      → stats.le y y ≡ true
      → stats.le x y ≡ false
      → stats.le y x ≡ true
  pub transitive : (x y z : F) → stats.le x y ≡ true → stats.le y z ≡ true → stats.le x z ≡ true

get_elem?-append :
    {A : Type 0} (i : ℕ) (x : A) (xs ys : List A)
    → get_elem? xs i ≡ some x
    → get_elem? (xs ++ ys) i ≡ some x
get_elem?-append i x [] ys h = cc
get_elem?-append zero x (y ∷ xs) ys h = h
get_elem?-append (suc i) x (y ∷ xs) ys h = get_elem?-append i x xs ys h

get_elem?-length :
    {A : Type 0} (y : A) (xs ys : List A) → get_elem? (xs ++ y ∷ ys) (length xs) ≡ some y
get_elem?-length y [] ys = refl
get_elem?-length y (x ∷ xs) ys = get_elem?-length y xs ys

take-length : {A : Type 0} (xs ys : List A) → take (length xs) (xs ++ ys) ≡ xs
take-length [] ys = refl
take-length (x ∷ xs) ys = ap (λ t. x ∷ t) (take-length xs ys)

module _ {F : Type 0} (stats : Statistics F) where
  -- The element at an index is the first of the greatest.
  abbrev pub IsFirstBest : ℕ → List F → Type 0
  IsFirstBest i xs =
      (best : F) × (get_elem? xs i ≡ some best)
      × All (λ x. stats.le x best ≡ true) xs
      × All (λ x. stats.le best x ≡ false) (take i xs)

  module _ (ordered : IsOrdered stats) where
    All-le_trans :
        (x y : F) (zs : List F)
        → stats.le x y ≡ true
        → All (λ z. stats.le z x ≡ true) zs
        → All (λ z. stats.le z y ≡ true) zs
    All-le_trans x y [] h a = tt
    All-le_trans x y (z ∷ zs) h a = (ordered.transitive z x y a.0 h, All-le_trans x y zs h a.1)

    All-above :
        (x y : F) (zs : List F)
        → stats.le y x ≡ false
        → All (λ z. stats.le z x ≡ true) zs
        → All (λ z. stats.le y z ≡ false) zs
    All-above x y [] h a = tt
    All-above x y (z ∷ zs) h a = (
      elim (Bool-cases (stats.le y z)) [
        | inl e ↦ absurd (ground (arith, ordered.transitive y z x e a.0, h))
        | inr e ↦ e
      ],
      All-above x y zs h a.1,
    )

    best_from-IsFirstBest :
        (best i : ℕ) (x : F) (seen ys : List F)
        → i ≡ length seen
        → stats.le x x ≡ true
        → All (λ y. stats.le y y ≡ true) ys
        → get_elem? seen best ≡ some x
        → All (λ y. stats.le y x ≡ true) seen
        → ((later : List F) → All (λ y. stats.le x y ≡ false) (take best (seen ++ later)))
        → IsFirstBest (best_from stats best x i ys) (seen ++ ys)
    unfolding best_from
    best_from-IsFirstBest best i x seen [] l h a g m f =
        (x, get_elem?-append best x seen [] g, All-append _ seen [] m tt, f [])
    best_from-IsFirstBest best i x seen (y ∷ ys) l h a g m f =
        let longer : suc i ≡ length (seen ++ y ∷ []) =
          omega (arith, l, length-append seen (y ∷ [])) in
        elim (Bool-cases (stats.le y x)) [
          | inl e ↦
              let kept : (later : List F)
                  → All (λ z. stats.le x z ≡ false) (take best ((seen ++ y ∷ []) ++ later)) =
                λ later. rw (append_assoc seen (y ∷ []) later) (f (y ∷ later)) in
              rw e (
                subst (IsFirstBest (best_from stats best x (suc i) ys))
                  (append_assoc seen (y ∷ []) ys)
                  (best_from-IsFirstBest best (suc i) x (seen ++ y ∷ []) ys longer h a.1
                    (get_elem?-append best x seen (y ∷ []) g) (All-append _ seen (y ∷ []) m (e, tt))
                    kept))
          | inr e ↦
              let above : stats.le x y ≡ true = ordered.comparable y x a.0 h e in
              let first : (later : List F)
                  → All (λ z. stats.le y z ≡ false) (take i ((seen ++ y ∷ []) ++ later)) =
                λ later.
                  rw (append_assoc seen (y ∷ []) later, l, take-length seen (y ∷ later))
                    (All-above x y seen e m) in
              rw e (
                subst (IsFirstBest (best_from stats i y (suc i) ys)) (append_assoc seen (y ∷ []) ys)
                  (best_from-IsFirstBest i (suc i) y (seen ++ y ∷ []) ys longer a.0 a.1
                    (rw l (get_elem?-length y seen []))
                    (All-append _ seen (y ∷ []) (All-le_trans x y seen above m) (a.0, tt)) first))
        ]

    -- np.argmax is the first of the greatest, where no element is NaN and there is one.
    pub argmax-IsFirstBest :
        (xs : List F)
        → 1 ≤ length xs
        → All (λ x. stats.le x x ≡ true) xs
        → IsFirstBest (argmax stats xs) xs
    unfolding argmax
    argmax-IsFirstBest [] h a = absurd (omega arith)
    argmax-IsFirstBest (x ∷ xs) h a =
        best_from-IsFirstBest 0 1 x (x ∷ []) xs refl a.0 a.1 refl (a.0, tt) (λ later. tt)

  pub value_at-get_elem? :
      (xs : List F) (i : ℕ) → i < length xs → get_elem? xs i ≡ some (value_at stats xs i)
  unfolding value_at
  value_at-get_elem? [] i h = absurd (omega arith)
  value_at-get_elem? (x ∷ xs) zero h = refl
  value_at-get_elem? (x ∷ xs) (suc i) h = value_at-get_elem? xs i (omega arith)

pub get_elem?-below :
    {A : Type 0} (xs : List A) (i : ℕ) (x : A) → get_elem? xs i ≡ some x → i < length xs
get_elem?-below [] i x h = cc
get_elem?-below (y ∷ xs) zero x h = omega arith
get_elem?-below (y ∷ xs) (suc i) x h = omega (arith, get_elem?-below xs i x h)
