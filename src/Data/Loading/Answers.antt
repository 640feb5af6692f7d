-- ===== src/Data/Loading/Answers.antt =====
-- aqr/tools/core.py: how load_prices puts together what the cache has and what the service answers.
use pigeon_trade.Common.{
  String, Bool, true, false, Option, none, some, List, [], ◌∷◌, map, ◌==◌, eq_iff, eq_refl,
  if◌then◌else◌, inl, inr, ◌≡◌, refl, sym, ap, ◌∙◌, arith, keep, Bool-cases,
}
use pigeon_trade.Common.Sweep.{mem}
use pigeon_trade.Common.Dict.{
  Dict, lookup, insert, lookup-insert, lookup_of_contains, Distinct, Distinct-insert,
}
use pigeon_trade.Common.Except.{Except, ok, raise, ◌>>=◌}
use pigeon_trade.Data.{Float}
use pigeon_trade.Data.Loading.{Stores, update, check_results}
use pigeon_trade.Data.Cache.{OhlcvCache}

abbrev pub is_none {ℓ} : {A : Type ℓ} → Option A → Bool
is_none none = true
is_none (some a) = false

abbrev pub value_of {ℓ} : {A : Type ℓ} → Except A → Option A
value_of (ok a) = some a
value_of (raise e) = none

-- What check_results says of the answers for the tickers.
abbrev pub Checks :
    (String → Except (List Float)) → List String → Except (List (String × List Float)) → Type 0
Checks answer ts (ok pairs) =
    ((d : Dict (List Float)) (t : String)
      → lookup t (update d pairs) ≡ (if mem t ts then value_of (answer t) else lookup t d))
    × ((t : String) → mem t ts ≡ true → (xs : List Float) × (answer t ≡ ok xs))
Checks answer ts (raise e) =
    (e ≡ "RuntimeError")
    × ((t : String) × (mem t ts ≡ true) × (e' : String) × (answer t ≡ raise e'))

pair_step :
    (answer : String → Except (List Float)) (t u : String) (ts : List String) (xs : List Float)
    (o : Option (List Float))
    → answer t ≡ ok xs
    → (if mem u ts then value_of (answer u) else (if t == u then some xs else o))
      ≡ (if mem u (t ∷ ts) then value_of (answer u) else o)
pair_step answer t u ts xs o h = ground (arith, eq_iff t u)

found_step :
    (answer : String → Except (List Float)) (t u : String) (ts : List String) (xs : List Float)
    → answer t ≡ ok xs
    → (mem u ts ≡ true → (ys : List Float) × (answer u ≡ ok ys))
    → mem u (t ∷ ts) ≡ true
    → (ys : List Float) × (answer u ≡ ok ys)
found_step answer t u ts xs h k m = elim (Bool-cases (t == u)) [
  | inl e ↦ (xs, ap answer (sym ((eq_iff t u).0 e)) ∙ h)
  | inr e ↦ k (rw e at m)
]

ok_step :
    (answer : String → Except (List Float)) (t : String) (ts : List String) (xs : List Float)
    (m : Except (List (String × List Float)))
    → answer t ≡ ok xs
    → Checks answer ts m
    → Checks answer (t ∷ ts) (m >>= λ rest. ok ((t, xs) ∷ rest))
unfolding update
ok_step answer t ts xs (raise e) h (p, (u, q, e', r)) = (p, (u, ground arith, e', r))
ok_step answer t ts xs (ok pairs) h (p, q) = (
  (λ d u.
      p (insert t xs d) u
      ∙ rw (lookup-insert t u xs d) (pair_step answer t u ts xs (lookup u d) h)),
  (λ u k. found_step answer t u ts xs h (q u) k),
)

check_step :
    (answer : String → Except (List Float)) (t : String) (ts : List String)
    (r : Except (List Float)) (results : List (String × Except (List Float)))
    → answer t ≡ r
    → Checks answer ts (check_results results)
    → Checks answer (t ∷ ts) (check_results ((t, r) ∷ results))
unfolding check_results
check_step answer t ts (raise e) results h c = (refl, (t, rw (eq_refl t) refl, e, h))
check_step answer t ts (ok xs) results h c = ok_step answer t ts xs (check_results results) h c

pub check_results_lem :
    (answer : String → Except (List Float)) (ts : List String)
    → Checks answer ts (check_results (map (λ t. (t, answer t)) ts))
unfolding check_results update
check_results_lem answer [] = ((λ d t. refl), (λ t h. absurd (ground arith)))
check_results_lem answer (t ∷ ts) =
    check_step answer t ts (answer t) (map (λ u. (u, answer u)) ts) refl
      (check_results_lem answer ts)

abbrev pub from_cache : Option (List Float) → Except (List Float) → Except (List Float)
from_cache none m = m
from_cache (some xs) m = ok xs

-- The instance of the cache that load_prices makes.
abbrev pub unopened : {Db : Type 0} → Stores Db → OhlcvCache Db
unopened s = record { initialized = false; db = s.cache.db }

-- What load_prices answers, where each ticker has this series or this failure.
abbrev pub Settles :
    (String → Except (List Float)) → List String → Except (Dict (List Float)) → Type 0
Settles answer ts (ok prices) =
    (t : String)
    → (mem t ts ≡ true → (xs : List Float) × (answer t ≡ ok xs) × (lookup t prices ≡ some xs))
      × (mem t ts ≡ false → lookup t prices ≡ none)
Settles answer ts (raise e) =
    (e ≡ "RuntimeError")
    × ((t : String) × (mem t ts ≡ true) × (e' : String) × (answer t ≡ raise e'))

abbrev over {ℓ} : {A : Type ℓ} → Option A → Option A → Option A
over none b = b
over (some a) b = some a

lookup-update :
    (t : String) (d d' : Dict (List Float))
    → Distinct d'
    → lookup t (update d d') ≡ over (lookup t d') (lookup t d)
unfolding update lookup
lookup-update t d [] h = refl
lookup-update t d ((k, xs) ∷ d') h = ground (
  arith,
  lookup-update t (insert k xs d) d' h.1,
  lookup-insert k t xs d,
  lookup_of_contains k d',
  eq_iff k t,
)

Distinct-update :
    (d : Dict (List Float)) (pairs : List (String × List Float))
    → Distinct d
    → Distinct (update d pairs)
unfolding update
Distinct-update d [] h = h
Distinct-update d ((k, xs) ∷ pairs) h =
    Distinct-update (insert k xs d) pairs (Distinct-insert k xs d h)

mem-keep :
    (p : String → Bool) (t : String) (ts : List String)
    → mem t (keep p ts) ≡ (if p t then mem t ts else false)
unfolding keep
mem-keep p t [] = ground arith
mem-keep p t (u ∷ us) = ground (arith, mem-keep p t us, eq_iff u t)

-- The entry of a ticker in the union: `b` says whether it was asked for.
abbrev united : Option (List Float) → Except (List Float) → Bool → Option (List Float)
united o r b =
    over (if (if is_none o then b else false) then value_of r else none)
      (if b then (if is_none o then none else o) else none)

kept_step :
    (o : Option (List Float)) (b : Bool)
    → (if is_none o then b else false) ≡ true
    → (b ≡ true) × (o ≡ none)
kept_step none b h = (h, refl)
kept_step (some xs) b h = absurd (ground arith)

present_step :
    (o : Option (List Float)) (r : Except (List Float)) (b : Bool)
    → b ≡ true
    → ((if is_none o then b else false) ≡ true → (xs : List Float) × (r ≡ ok xs))
    → (xs : List Float) × (from_cache o r ≡ ok xs) × (united o r b ≡ some xs)
present_step none r b h k = let (xs, e) = k h in (xs, e, rw h (rw e refl))
present_step (some xs) r b h k = (xs, refl, rw h refl)

absent_step :
    (o : Option (List Float)) (r : Except (List Float)) (b : Bool) → b ≡ false → united o r b ≡ none
absent_step none r b h = rw h refl
absent_step (some xs) r b h = rw h refl

-- The union of what the cache has and of what the service answers for the rest.
pub union_lem :
    (found : String → Option (List Float)) (rest : String → Except (List Float)) (ts : List String)
    (cached : Dict (List Float)) (m : Except (List (String × List Float)))
    → ((t : String)
        → lookup t cached
          ≡ (if mem t ts then (if is_none (found t) then none else found t) else none))
    → Checks rest (keep (λ t. is_none (found t)) ts) m
    → Settles
        (λ t. from_cache (found t) (rest t))
        ts
        (m >>= λ pairs. ok (update cached (update [] pairs)))
unfolding lookup
union_lem found rest ts cached (raise e) h (p, (t, q, e', r)) =
    let (k, n) =
      kept_step (found t) (mem t ts) (sym (mem-keep (λ u. is_none (found u)) t ts) ∙ q) in
    (p, (t, k, e', rw n r))
union_lem found rest ts cached (ok pairs) h (p, q) = λ t.
    let value : lookup t (update cached (update [] pairs)) ≡ united (found t) (rest t) (mem t ts) =
      lookup-update t cached (update [] pairs) (Distinct-update [] pairs tt)
      ∙ rw (p [] t) (rw (mem-keep (λ u. is_none (found u)) t ts) (rw (h t) refl)) in
    (
      (λ k.
          let (xs, e, u) =
            present_step (found t) (rest t) (mem t ts) k
              (λ g. q t (mem-keep (λ u. is_none (found u)) t ts ∙ g)) in
          (xs, e, value ∙ u)),
      (λ k. value ∙ absent_step (found t) (rest t) (mem t ts) k),
    )
