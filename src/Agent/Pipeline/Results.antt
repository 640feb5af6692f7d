-- ===== src/Agent/Pipeline/Results.antt =====
-- What the final state of a run holds (backtest_node, validate_node, narrate_node, respond_node).
use pigeon_trade.Common.{
  ℕ, ◌≤◌, String, Option, none, some, List, ◌≡◌, refl, ap, arith, length, drop, length-keep-le, All,
  sym,
}
use pigeon_trade.Common.Except.{ok, AllOk, AllOk-bind, AllOk-then, AllOk-elim}
use pigeon_trade.Common.Sort.{sort_desc, sort_desc-IsDescending, take-dominates}
use pigeon_trade.Research.{Tools, BacktestResult, is_survivor}
use pigeon_trade.Agent.{
  AgentState, Response, need, backtest_all, plan_node, load_data_node, generate_node, backtest_node,
  validate_node, narrate_node, respond_node, top_results, n_survivors,
}
use pigeon_trade.Agent.Pipeline.{straight}

-- The number tested is that of the results.
abbrev Counted : ℕ → Option (List BacktestResult) → Type 0
Counted n none = ⊥
Counted n (some rs) = n ≡ length rs

abbrev IsCounted : AgentState → Type 0
IsCounted t = Counted t.n_tested t.results

-- Beside it, the number of survivors is that of the results with a surviving verdict.
abbrev pub Tallied : ℕ → ℕ → Option (List BacktestResult) → Type 0
Tallied n k none = ⊥
Tallied n k (some rs) = (n ≡ length rs) × (k ≡ n_survivors rs) × (k ≤ n)

abbrev pub IsTallied : AgentState → Type 0
IsTallied t = Tallied t.n_tested t.n_survived t.results

need-some : {A : Type 0} (e : String) (o : Option A) → AllOk (λ a. o ≡ some a) (need e o)
need-some e none = tt
need-some e (some a) = refl

survivors_le : (rs : List BacktestResult) → n_survivors rs ≤ length rs
unfolding n_survivors
survivors_le rs = length-keep-le is_survivor rs

Tallied-of :
    (n : ℕ) (o : Option (List BacktestResult)) (rs : List BacktestResult)
    → o ≡ some rs
    → Counted n o
    → Tallied n (n_survivors rs) o
Tallied-of n none rs e c = absurd c
Tallied-of n (some xs) rs e c =
    let same : xs ≡ rs = ground arith in
    (c, ap n_survivors (sym same), rw (c, ← same) (survivors_le xs))

module _ (tools : Tools) where
  backtest_node_counts : (s : AgentState) → AllOk IsCounted (backtest_node tools s)
  unfolding backtest_node
  backtest_node_counts s = AllOk-then _ (need "AttributeError" s.plan) _ (λ plan.
      AllOk-then _ (need "TypeError" s.hypotheses) _
        (λ hs. AllOk-then _ (backtest_all tools plan s.prices hs) _ (λ rs. refl)))

  validate_node_counts : (s : AgentState) → IsCounted s → AllOk IsCounted (validate_node tools s)
  unfolding validate_node
  validate_node_counts s c =
      AllOk-then _ (need "TypeError" s.results) _
        (λ rs. AllOk-then _ (tools.validate_portfolio rs) _ (λ p. c))

  narrate_node_tallies : (s : AgentState) → IsCounted s → AllOk IsTallied (narrate_node tools s)
  unfolding narrate_node
  narrate_node_tallies s c =
      AllOk-bind (λ rs. s.results ≡ some rs) IsTallied (need "TypeError" s.results) _
        (need-some "TypeError" s.results)
        (λ rs e. AllOk-then _ (need "AttributeError" s.pbo) _ (λ p.
          AllOk-then _ (tools.extract_insights _ _ _ p.pbo p.verdict) _ (λ insights.
            AllOk-then _ (need "AttributeError" s.plan) _ (λ plan.
              AllOk-then _ (tools.narrate s.goal _ _ _ _ p.pbo p.verdict _) _
                (λ text. Tallied-of s.n_tested s.results rs e c)))))

  straight_tallies :
      (render : Response → String) (s : AgentState)
      → AllOk (λ t. IsTallied t × (t.step ≡ "done")) (straight tools render s)
  unfolding straight respond_node
  straight_tallies render s = AllOk-then _ (plan_node tools s) _ (λ planned.
      AllOk-then _ (load_data_node tools planned) _ (λ loaded.
        AllOk-then _ (generate_node tools loaded) _ (λ generated.
          AllOk-bind IsCounted _ (backtest_node tools generated) _ (backtest_node_counts generated)
            (λ tested c.
              AllOk-bind IsCounted _ (validate_node tools tested) _ (validate_node_counts tested c)
                (λ validated c'.
                  AllOk-bind IsTallied _ (narrate_node tools validated) _
                    (narrate_node_tallies validated c') (λ narrated d. (d, refl)))))))

  -- A run of the pipeline that raises nothing ends with the step "done" and with results, whose
  -- number is the number tested and of which those with a surviving verdict are the number
  -- survived, which is at most the number tested.
  pub straight_results :
      (render : Response → String) (s t : AgentState)
      → straight tools render s ≡ ok t
      → IsTallied t × (t.step ≡ "done")
  straight_results render s t h =
      AllOk-elim (λ u. IsTallied u × (u.step ≡ "done")) (straight tools render s)
        (straight_tallies render s) h

-- The report shows at most five results, none with a smaller deflated Sharpe ratio than one that it
-- leaves out.
pub top_results-best :
    (rs : List BacktestResult)
    → All (λ r. All (λ q. q.dsr ≤ r.dsr) (drop 5 (sort_desc (λ r. r.dsr) rs))) (top_results rs)
unfolding top_results
top_results-best rs =
    take-dominates (λ (r : BacktestResult). r.dsr) 5 (sort_desc (λ r. r.dsr) rs)
      (sort_desc-IsDescending (λ (r : BacktestResult). r.dsr) rs)
