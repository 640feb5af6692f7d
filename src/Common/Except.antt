-- ===== src/Common/Except.antt =====
-- Code that may raise: a value, or the name of the exception's class.
use Prim.Native.String.{String}
use mathlib.Core.Path.{◌≡◌, refl, subst}
use mathlib.Core.List.{List, [], ◌∷◌}
use mathlib.Core.Logic.{◌⊎◌, inl, inr}

pub data Except {ℓ} (A : Type ℓ) : Type ℓ where
  ok : A → Except A
  raise : String → Except A

infixl 5 ◌>>=◌
abbrev pub ◌>>=◌ {ℓ κ} : {A : Type ℓ} {B : Type κ} → Except A → (A → Except B) → Except B
ok a >>= f = f a
raise e >>= f = raise e

-- except Exception: the handler's value
abbrev pub or_else {ℓ} : {A : Type ℓ} → Except A → A → A
or_else (ok a) d = a
or_else (raise e) d = d

-- A loop that collects a value for each element; the first exception ends it.
unfoldable pub traverse {ℓ κ} :
    {A : Type ℓ} {B : Type κ} → (A → Except B) → List A → Except (List B)
traverse f [] = ok []
traverse f (x ∷ xs) = do y ← f x; ys ← traverse f xs; ok (y ∷ ys)

-- What holds of the value, if there is one.
abbrev pub AllOk {ℓ} : {A : Type ℓ} → (A → Type 0) → Except A → Type 0
AllOk P (ok a) = P a
AllOk P (raise e) = Unit

pub AllOk-any {ℓ} : {A : Type ℓ} (m : Except A) → AllOk (λ a. Unit {0}) m
AllOk-any (ok a) = tt
AllOk-any (raise e) = tt

pub AllOk-bind {ℓ κ} :
    {A : Type ℓ} {B : Type κ} (P : A → Type 0) (Q : B → Type 0) (m : Except A) (f : A → Except B)
    → AllOk P m
    → ((a : A) → P a → AllOk Q (f a))
    → AllOk Q (m >>= f)
AllOk-bind P Q (ok a) f h k = k a h
AllOk-bind P Q (raise e) f h k = tt

pub AllOk-intro {ℓ} :
    {A : Type ℓ} (P : A → Type 0) (m : Except A) → ((a : A) → m ≡ ok a → P a) → AllOk P m
AllOk-intro P (ok a) h = h a refl
AllOk-intro P (raise e) h = tt

-- For a part of which nothing need be known.
pub AllOk-then {ℓ κ} :
    {A : Type ℓ} {B : Type κ} (Q : B → Type 0) (m : Except A) (f : A → Except B)
    → ((a : A) → AllOk Q (f a))
    → AllOk Q (m >>= f)
AllOk-then Q (ok a) f k = k a
AllOk-then Q (raise e) f k = tt

pub AllOk-elim {ℓ} :
    {A : Type ℓ} (P : A → Type 0) (m : Except A) {a : A} → AllOk P m → m ≡ ok a → P a
AllOk-elim P (ok a) h e = subst (AllOk P) e h
AllOk-elim P (raise x) h e = cc

pub Except-cases {ℓ} :
    {A : Type ℓ} (m : Except A) → ((a : A) × (m ≡ ok a)) ⊎ ((e : String) × (m ≡ raise e))
Except-cases (ok a) = inl (a, refl)
Except-cases (raise e) = inr (e, refl)
