-- ===== src/Llm/Insights/Families.antt =====
-- aqr/tools/core.py: the insights on the families of the results.
use pigeon_trade.Common.{
  ℕ, ◌+◌, String, Bool, List, [], ◌∷◌, ◌++◌, map, length, keep, length-append, length-map,
  append_assoc, append-nil, ◌==◌, eq_iff, if◌then◌else◌, ◌≡◌, refl, sym, ap, ◌∙◌, arith, Bool-cases,
  inl, inr,
}
use pigeon_trade.Common.Dict.{Dict, lookup, insert, lookup-insert}
use pigeon_trade.Research.{BacktestResult}
use pigeon_trade.Llm.Insights.{
  Insight, best, family, overfit, marginal, stable, survival, family_of, dsr_of, members,
  group_onto, by_family, on_family, on_overfitting, on_survival, extract_insights,
}

abbrev pub in_family : String → BacktestResult → Bool
in_family q r = family_of r == q

members-insert :
    (k q : String) (rs : List BacktestResult) (d : Dict (List BacktestResult))
    → members q (insert k rs d) ≡ (if k == q then rs else members q d)
members-insert k q rs d = elim (Bool-cases (k == q)) [
  | inl p ↦ rw (lookup-insert k q rs d, p) refl
  | inr p ↦ rw (lookup-insert k q rs d, p) refl
]

under_family :
    (f q : String) (r : BacktestResult) (d : Dict (List BacktestResult)) (ks : List BacktestResult)
    → ((if f == q then members f d ++ r ∷ [] else members q d) ++ ks)
      ≡ members q d ++ (if f == q then r ∷ ks else ks)
under_family f q r d ks = elim (Bool-cases (f == q)) [
  | inl p ↦ rw (p, (eq_iff f q).0 p) (append_assoc (members q d) (r ∷ []) ks)
  | inr p ↦ rw p refl
]

members-group_onto :
    (q : String) (d : Dict (List BacktestResult)) (rs : List BacktestResult)
    → members q (group_onto d rs) ≡ members q d ++ keep (in_family q) rs
unfolding group_onto keep
members-group_onto q d [] = sym (append-nil (members q d))
members-group_onto q d (r ∷ rs) =
    let f = family_of r in
    let extended = insert f (members f d ++ r ∷ []) d in
    members-group_onto q extended rs
    ∙ ap (λ xs. xs ++ keep (in_family q) rs) (members-insert f q (members f d ++ r ∷ []) d)
    ∙ under_family f q r d (keep (in_family q) rs)

abbrev size : Dict (List BacktestResult) → ℕ
size [] = 0
size ((k, rs) ∷ d) = length rs + size d

size-insert :
    (k : String) (rs : List BacktestResult) (d : Dict (List BacktestResult))
    → size (insert k rs d) + length (members k d) ≡ size d + length rs
unfolding insert lookup
size-insert k rs [] = omega arith
size-insert k rs ((j, xs) ∷ d) = ground (arith, size-insert k rs d)

size-group_onto :
    (d : Dict (List BacktestResult)) (rs : List BacktestResult)
    → size (group_onto d rs) ≡ size d + length rs
unfolding group_onto
size-group_onto d [] = omega arith
size-group_onto d (r ∷ rs) =
    let old = members (family_of r) d in
    omega (
      arith,
      size-group_onto (insert (family_of r) (old ++ r ∷ []) d) rs,
      size-insert (family_of r) (old ++ r ∷ []) d,
      length-append old (r ∷ []),
    )

-- The ratios of a family, of the first insight on it.
abbrev pub ratios_of : String → List Insight → List ℕ
ratios_of q [] = []
ratios_of q (best r ∷ is) = ratios_of q is
ratios_of q (family f ds ∷ is) = if f == q then ds else ratios_of q is
ratios_of q (overfit n v ∷ is) = ratios_of q is
ratios_of q (marginal n v ∷ is) = ratios_of q is
ratios_of q (stable n v ∷ is) = ratios_of q is
ratios_of q (survival n k ∷ is) = ratios_of q is

-- How many results the insights on families count.
abbrev pub counted : List Insight → ℕ
counted [] = 0
counted (best r ∷ is) = counted is
counted (family f ds ∷ is) = length ds + counted is
counted (overfit n v ∷ is) = counted is
counted (marginal n v ∷ is) = counted is
counted (stable n v ∷ is) = counted is
counted (survival n k ∷ is) = counted is

abbrev closing : ℕ → ℕ → ℕ → String → List Insight
closing tested survived pbo verdict = on_overfitting pbo verdict ∷ on_survival survived tested

ratios_of-on_family :
    (q : String) (d : Dict (List BacktestResult)) (is : List Insight)
    → ratios_of q is ≡ []
    → ratios_of q (map on_family d ++ is) ≡ map dsr_of (members q d)
unfolding lookup
ratios_of-on_family q [] is h = h
ratios_of-on_family q ((f, rs) ∷ d) is h = elim (Bool-cases (f == q)) [
  | inl p ↦ rw p refl
  | inr p ↦ rw p (ratios_of-on_family q d is h)
]

counted-on_family :
    (d : Dict (List BacktestResult)) (is : List Insight)
    → counted (map on_family d ++ is) ≡ size d + counted is
counted-on_family [] is = omega arith
counted-on_family ((f, rs) ∷ d) is = omega (arith, counted-on_family d is, length-map dsr_of rs)

ratios_of-closing :
    (q : String) (tested survived pbo : ℕ) (verdict : String)
    → ratios_of q (closing tested survived pbo verdict) ≡ []
ratios_of-closing q tested survived pbo verdict = ground arith

counted-closing :
    (tested survived pbo : ℕ) (verdict : String) → counted (closing tested survived pbo verdict) ≡ 0
counted-closing tested survived pbo verdict = ground arith

-- The insights on families count every result once: the ratios of a family are those of its results,
-- in their order, and the families together have as many as there are results.
pub extract_insights-families :
    (q : String) (top : List BacktestResult) (tested survived pbo : ℕ) (verdict : String)
    → (ratios_of q (extract_insights top tested survived pbo verdict)
        ≡ map dsr_of (keep (in_family q) top))
      × (counted (extract_insights top tested survived pbo verdict) ≡ length top)
unfolding extract_insights keep lookup
extract_insights-families q [] tested survived pbo verdict = (refl, refl)
extract_insights-families q (r ∷ rs) tested survived pbo verdict =
    let is = closing tested survived pbo verdict in
    let groups = by_family (r ∷ rs) in
    (
      ratios_of-on_family q groups is (ratios_of-closing q tested survived pbo verdict)
          ∙ ap (map dsr_of) (members-group_onto q [] (r ∷ rs)),
      omega (
        arith,
        counted-on_family groups is,
        counted-closing tested survived pbo verdict,
        size-group_onto [] (r ∷ rs),
      ),
    )
