-- ===== src/Llm/Fence/RoundTrip.antt =====
-- aqr/llm_env.py: a text that a language model has put into a fence.
use pigeon_trade.Common.{
  ℕ, ◌≤◌, Bool, true, false, List, [], ◌∷◌, ◌++◌, length, length-append, eqb, leb, All, ◌≡◌, refl,
  ap, ◌∙◌, arith, Bool-cases, inl, inr,
}
use pigeon_trade.Llm.Fence.{
  Letters, fence, starts_with, same, is_empty, onto_first, split_lines, join_lines, lstrip, rstrip,
  strip, without_last, strip_markdown_fence,
}

-- A text behind an opening fence with a tag, and before a closing one.
abbrev pub fenced : Letters → Letters → Letters
fenced tag body = fence ++ tag ++ 10 ∷ (body ++ 10 ∷ fence)

length-onto_first : (c : ℕ) (ls : List Letters) → 1 ≤ length (onto_first c ls)
length-onto_first c [] = omega arith
length-onto_first c (l ∷ ls) = omega arith

length-split_lines : (xs : Letters) → 1 ≤ length (split_lines xs)
unfolding split_lines
length-split_lines [] = omega arith
length-split_lines (c ∷ cs) = elim (Bool-cases (eqb c 10)) [
  | inl p ↦ rw p (omega arith)
  | inr p ↦ rw p (length-onto_first c (split_lines cs))
]

onto_first-append :
    (c : ℕ) (ls ms : List Letters) → 1 ≤ length ls → onto_first c (ls ++ ms) ≡ onto_first c ls ++ ms
onto_first-append c [] ms h = absurd (omega arith)
onto_first-append c (l ∷ ls) ms h = refl

-- The lines of two texts with the end of a line between them.
split_lines-append :
    (xs ys : Letters) → split_lines (xs ++ 10 ∷ ys) ≡ split_lines xs ++ split_lines ys
unfolding split_lines
split_lines-append [] ys = refl
split_lines-append (c ∷ xs) ys = elim (Bool-cases (eqb c 10)) [
  | inl p ↦ rw (p, split_lines-append xs ys) refl
  | inr p ↦
      rw (p, split_lines-append xs ys)
        (onto_first-append c (split_lines xs) (split_lines ys) (length-split_lines xs))
]

-- A text without the end of a line is one line.
split_lines-line : (l : Letters) → All (λ c. eqb c 10 ≡ false) l → split_lines l ≡ l ∷ []
unfolding split_lines
split_lines-line [] h = refl
split_lines-line (c ∷ l) h = rw (h.0, split_lines-line l h.1) refl

join_lines-onto_first :
    (c : ℕ) (ls : List Letters) → 1 ≤ length ls → join_lines (onto_first c ls) ≡ c ∷ join_lines ls
unfolding join_lines
join_lines-onto_first c [] h = absurd (omega arith)
join_lines-onto_first c (l ∷ []) h = refl
join_lines-onto_first c (l ∷ m ∷ ls) h = refl

join_lines-nil : (ls : List Letters) → 1 ≤ length ls → join_lines ([] ∷ ls) ≡ 10 ∷ join_lines ls
unfolding join_lines
join_lines-nil [] h = absurd (omega arith)
join_lines-nil (l ∷ ls) h = refl

join_lines-split_lines : (xs : Letters) → join_lines (split_lines xs) ≡ xs
unfolding split_lines join_lines
join_lines-split_lines [] = refl
join_lines-split_lines (c ∷ xs) = elim (Bool-cases (eqb c 10)) [
  | inl p ↦
      rw (p, join_lines-nil (split_lines xs) (length-split_lines xs), join_lines-split_lines xs)
        (ap (λ n. n ∷ xs) (ground (arith, p)))
  | inr p ↦
      rw
        (
          p,
          join_lines-onto_first c (split_lines xs) (length-split_lines xs),
          join_lines-split_lines xs,
        )
        refl
]

pub is_empty-append : (xs ys : Letters) → is_empty ys ≡ false → is_empty (xs ++ ys) ≡ false
is_empty-append [] ys h = h
is_empty-append (x ∷ xs) ys h = refl

module _ (is_space : ℕ → Bool) where
  abbrev pub IsBlank : Letters → Type 0
  IsBlank xs = All (λ c. is_space c ≡ true) xs

  lstrip-append :
      (before x : Letters) → IsBlank before → lstrip is_space (before ++ x) ≡ lstrip is_space x
  unfolding lstrip
  lstrip-append [] x h = refl
  lstrip-append (c ∷ before) x h = rw h.0 (lstrip-append before x h.1)

  rstrip-blank : (after : Letters) → IsBlank after → rstrip is_space after ≡ []
  unfolding rstrip
  rstrip-blank [] h = refl
  rstrip-blank (c ∷ after) h = rw (h.0, rstrip-blank after h.1) refl

  rstrip-append_blank :
      (x after : Letters) → IsBlank after → rstrip is_space (x ++ after) ≡ rstrip is_space x
  unfolding rstrip
  rstrip-append_blank [] after h = rstrip-blank after h
  rstrip-append_blank (c ∷ x) after h = rw (rstrip-append_blank x after h) refl

  -- A text that ends in a code point that is no blank keeps it.
  rstrip-append :
      (xs ys : Letters)
      → is_empty ys ≡ false
      → rstrip is_space ys ≡ ys
      → rstrip is_space (xs ++ ys) ≡ xs ++ ys
  unfolding rstrip
  rstrip-append [] ys h k = k
  rstrip-append (c ∷ xs) ys h k = ground (arith, rstrip-append xs ys h k, is_empty-append xs ys h)

  module _ (visible : is_space 96 ≡ false) where
    lstrip-fence : (x : Letters) → lstrip is_space (fence ++ x) ≡ fence ++ x
    unfolding lstrip
    lstrip-fence x = rw visible refl

    rstrip-fence : rstrip is_space fence ≡ fence
    unfolding rstrip
    rstrip-fence = rw visible refl

    rstrip-fenced : (tag body : Letters) → rstrip is_space (fenced tag body) ≡ fenced tag body
    rstrip-fenced tag body =
        let closing = rstrip-append (10 ∷ []) fence refl rstrip-fence in
        let some_body = is_empty-append body (10 ∷ fence) refl in
        let rest = rstrip-append body (10 ∷ fence) refl closing in
        rstrip-append (fence ++ tag) (10 ∷ (body ++ 10 ∷ fence)) refl
          (rstrip-append (10 ∷ []) (body ++ 10 ∷ fence) some_body rest)

    -- Blanks around a text in a fence go.
    strip-fenced :
        (before tag body after : Letters)
        → IsBlank before
        → IsBlank after
        → strip is_space (before ++ (fenced tag body ++ after)) ≡ fenced tag body
    strip-fenced before tag body after b a =
        let x = fenced tag body in
        let left : lstrip is_space (before ++ (x ++ after)) ≡ x ++ after =
          lstrip-append before (x ++ after) b
          ∙ lstrip-fence (tag ++ 10 ∷ (body ++ 10 ∷ fence) ++ after) in
        rw left (rstrip-append_blank x after a ∙ rstrip-fenced tag body)

    strip-fence : strip is_space fence ≡ fence
    unfolding lstrip
    strip-fence = rw visible rstrip-fence

    without_last-append : (ls : List Letters) → without_last is_space (ls ++ fence ∷ []) ≡ ls
    unfolding without_last same
    without_last-append [] = rw strip-fence refl
    without_last-append (l ∷ []) = rw strip-fence refl
    without_last-append (l ∷ m ∷ ls) = rw (without_last-append (m ∷ ls)) refl

    split_lines-fenced :
        (tag body : Letters)
        → All (λ c. eqb c 10 ≡ false) tag
        → split_lines (fenced tag body) ≡ (fence ++ tag) ∷ (split_lines body ++ fence ∷ [])
    split_lines-fenced tag body t =
        let opening = split_lines-line (fence ++ tag) (refl, (refl, (refl, t))) in
        let closing = split_lines-line fence (refl, (refl, (refl, tt))) in
        rw
          (
            split_lines-append (fence ++ tag) (body ++ 10 ∷ fence),
            split_lines-append body fence,
            opening,
            closing,
          )
          refl

    -- What a language model puts into a fence, with a tag of one line behind the opening one and
    -- blanks around it all, is what strip_markdown_fence returns, whatever it holds, where a backtick
    -- is no blank.
    pub strip_markdown_fence-fenced :
        (before tag body after : Letters)
        → IsBlank before
        → IsBlank after
        → All (λ c. eqb c 10 ≡ false) tag
        → strip_markdown_fence is_space (before ++ (fenced tag body ++ after)) ≡ body
    unfolding strip_markdown_fence starts_with
    strip_markdown_fence-fenced before tag body after b a t =
        let lines = split_lines body in
        let more : leb 1 (length (lines ++ fence ∷ [])) ≡ true =
          ground (arith, length-append lines (fence ∷ [])) in
        rw
          (
            strip-fenced before tag body after b a,
            split_lines-fenced tag body t,
            more,
            without_last-append lines,
          )
          (join_lines-split_lines body)
