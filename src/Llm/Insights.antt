-- ===== src/Llm/Insights.antt =====
-- extract_insights of aqr/tools/core.py. An insight keeps what its text shows; that of a family has the
-- deflated ratios whose mean the text gives. Ratios are thousandths.
pub mod Families
use pigeon_trade.Common.{
  ℕ, ◌+◌, String, Option, none, some, List, [], ◌∷◌, ◌++◌, map, length, leb, ltb, if◌then◌else◌,
}
use pigeon_trade.Common.Dict.{Dict, lookup, insert}
use pigeon_trade.Research.{Hypothesis, BacktestResult}

pub data Insight : Type 0 where
  best : BacktestResult → Insight
  family : String → List ℕ → Insight
  overfit : ℕ → String → Insight
  marginal : ℕ → String → Insight
  stable : ℕ → String → Insight
  survival : ℕ → ℕ → Insight

abbrev pub family_of : BacktestResult → String
family_of r = r.hypothesis.family

abbrev pub dsr_of : BacktestResult → ℕ
dsr_of r = r.dsr

abbrev pub listed : Option (List BacktestResult) → List BacktestResult
listed none = []
listed (some rs) = rs

-- The list under a key, or an empty one.
abbrev pub members : String → Dict (List BacktestResult) → List BacktestResult
members q d = listed (lookup q d)

-- The loop over the results: by_family.setdefault(family, []).append(r)
unfoldable pub group_onto :
    Dict (List BacktestResult) → List BacktestResult → Dict (List BacktestResult)
group_onto d [] = d
group_onto d (r ∷ rs) = group_onto (insert (family_of r) (members (family_of r) d ++ r ∷ []) d) rs

abbrev pub by_family : List BacktestResult → Dict (List BacktestResult)
by_family rs = group_onto [] rs

abbrev pub on_family : String × List BacktestResult → Insight
on_family (f, rs) = family f (map dsr_of rs)

abbrev pub on_overfitting : ℕ → String → Insight
on_overfitting pbo verdict =
    if leb 500 pbo
    then overfit pbo verdict
    else if leb 300 pbo
    then marginal pbo verdict
    else stable pbo verdict

abbrev pub on_survival : ℕ → ℕ → List Insight
on_survival survived tested = if ltb 0 tested then survival survived tested ∷ [] else []

unfoldable pub extract_insights : List BacktestResult → ℕ → ℕ → ℕ → String → List Insight
unfolding group_onto
extract_insights [] tested survived pbo verdict = []
extract_insights (r ∷ rs) tested survived pbo verdict =
    best r
    ∷ (map on_family (by_family (r ∷ rs))
        ++ on_overfitting pbo verdict ∷ on_survival survived tested)
