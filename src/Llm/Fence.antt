-- ===== src/Llm/Fence.antt =====
-- strip_markdown_fence of aqr/llm_env.py. A text is the list of its code points: 96 is the backtick
-- and 10 the end of a line; `is_space` is str.isspace of a code point.
pub mod RoundTrip
use pigeon_trade.Common.{
  ℕ, zero, suc, Bool, true, false, not, ◌&&◌, List, [], ◌∷◌, ◌++◌, length, eqb, leb, if◌then◌else◌,
}

abbrev pub Letters : Type 0
Letters = List ℕ

-- "```"
abbrev pub fence : Letters
fence = 96 ∷ 96 ∷ 96 ∷ []

unfoldable pub starts_with : Letters → Letters → Bool
starts_with [] cs = true
starts_with (x ∷ xs) [] = false
starts_with (x ∷ xs) (c ∷ cs) = eqb x c && starts_with xs cs

-- Equality of texts.
unfoldable pub same : Letters → Letters → Bool
same [] [] = true
same [] (c ∷ cs) = false
same (x ∷ xs) [] = false
same (x ∷ xs) (c ∷ cs) = eqb x c && same xs cs

abbrev pub is_empty : Letters → Bool
is_empty [] = true
is_empty (c ∷ cs) = false

abbrev pub onto_first : ℕ → List Letters → List Letters
onto_first c [] = (c ∷ []) ∷ []
onto_first c (l ∷ ls) = (c ∷ l) ∷ ls

-- content.split("\n")
unfoldable pub split_lines : Letters → List Letters
split_lines [] = [] ∷ []
split_lines (c ∷ cs) =
    let rest = split_lines cs in if eqb c 10 then [] ∷ rest else onto_first c rest

-- "\n".join(lines)
unfoldable pub join_lines : List Letters → Letters
join_lines [] = []
join_lines (l ∷ []) = l
join_lines (l ∷ m ∷ ls) = l ++ 10 ∷ join_lines (m ∷ ls)

-- The first line goes, if it opens a fence and another follows.
abbrev pub without_first : List Letters → List Letters
without_first [] = []
without_first (l ∷ ls) = if leb 1 (length ls) && starts_with fence l then ls else l ∷ ls

module _ (is_space : ℕ → Bool) where
  unfoldable pub lstrip : Letters → Letters
  lstrip [] = []
  lstrip (c ∷ cs) = let rest = lstrip cs in if is_space c then rest else c ∷ cs

  unfoldable pub rstrip : Letters → Letters
  rstrip [] = []
  rstrip (c ∷ cs) = let rest = rstrip cs in if is_space c && is_empty rest then [] else c ∷ rest

  -- str.strip
  abbrev pub strip : Letters → Letters
  strip cs = rstrip (lstrip cs)

  -- The last line goes, if it is a fence.
  unfoldable pub without_last : List Letters → List Letters
  without_last [] = []
  without_last (l ∷ []) = if same (strip l) fence then [] else l ∷ []
  without_last (l ∷ m ∷ ls) = l ∷ without_last (m ∷ ls)

  abbrev pub unfenced : Letters → Letters
  unfenced cs = join_lines (without_last (without_first (split_lines cs)))

  unfoldable pub strip_markdown_fence : Letters → Letters
  unfolding starts_with same split_lines join_lines lstrip rstrip without_last
  strip_markdown_fence content =
      if not (starts_with fence (strip content)) then strip content else unfenced (strip content)
