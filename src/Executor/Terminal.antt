-- ===== src/Executor/Terminal.antt =====
-- The terminal events of a run: subscribers stop at the first of them.
use pigeon_trade.Common.{
  ℕ, String, Bool, false, ◌||◌, List, [], ◌∷◌, ◌++◌, ◌==◌, ◌≡◌, refl, arith, All, All-append,
  Option-cases, inl, inr,
}
use pigeon_trade.Common.Dict.{Dict, lookup}
use pigeon_trade.Common.Except.{Except, ok, raise, Except-cases}
use pigeon_trade.Research.{
  Hypothesis, BacktestResult, Backtest, error, result, Pbo, Tools, ResearchPlan, PipelineResult,
}
use pigeon_trade.Executor.{
  Emission, Run, bind_outcome, ◌>>=◌, ◌>>◌, pure, call, emit, on_error, on_error_outcome, emit_all,
  load_data, backtest_loop, backtest_call, record_result, review_outcome, report, measure, conclude,
  narrate_call, run,
}

abbrev pub ends : Emission → Bool
ends e = e.kind == "done" || e.kind == "error"

-- Nothing that is emitted ends the stream.
abbrev pub IsQuiet : List Emission → Type 0
IsQuiet es = All (λ e. ends e ≡ false) es

pub record Quiet {ℓ} {A : Type ℓ} (m : Run A) : Type 0 where
  pub quiet : IsQuiet m.0

Quiet-outcome {ℓ κ} :
    {A : Type ℓ} {B : Type κ} (es : List Emission) (o : Except A) (f : A → Run B)
    → IsQuiet es
    → ((a : A) → Quiet (f a))
    → IsQuiet (bind_outcome es o f).0
Quiet-outcome es (raise e) f h k = h
Quiet-outcome es (ok a) f h k = All-append (λ e. ends e ≡ false) es (f a).0 h (k a).quiet

Quiet-bind {ℓ κ} :
    {A : Type ℓ} {B : Type κ} (m : Run A) (f : A → Run B)
    → Quiet m
    → ((a : A) → Quiet (f a))
    → Quiet (m >>= f)
unfolding ◌>>=◌
Quiet-bind m f h k = record { quiet = Quiet-outcome m.0 m.1 f h.quiet k }

Quiet-pure {ℓ} : {A : Type ℓ} (a : A) → Quiet (pure a)
unfolding pure
Quiet-pure a = record { quiet = tt }

Quiet-call {ℓ} : {A : Type ℓ} (r : Except A) → Quiet (call r)
unfolding call
Quiet-call r = record { quiet = tt }

Quiet-emit :
    (kind : String) (texts : List String)
    → (kind == "done" || kind == "error") ≡ false
    → Quiet (emit kind texts)
unfolding emit
Quiet-emit kind texts h = record { quiet = (h, tt) }

Quiet-emit_all :
    (kind : String) (ts : List (List String))
    → (kind == "done" || kind == "error") ≡ false
    → Quiet (emit_all kind ts)
unfolding emit_all
Quiet-emit_all kind [] h = Quiet-pure tt
Quiet-emit_all kind (t ∷ ts) h =
    Quiet-bind (emit kind t) (λ _. emit_all kind ts) (Quiet-emit kind t h)
      (λ _. Quiet-emit_all kind ts h)

ruleset quiet_rules = (Quiet-bind, Quiet-pure, Quiet-call, Quiet-emit, Quiet-emit_all)

then_emit {ℓ} :
    {A : Type ℓ} (kind : String) (m : Run A)
    → (kind == "done" || kind == "error") ≡ false
    → Quiet m
    → Quiet (emit kind [] >> m)
then_emit kind m h q = Quiet-bind (emit kind []) (λ _. m) (Quiet-emit kind [] h) (λ _. q)

then_call {ℓ κ} :
    {A : Type ℓ} {B : Type κ} (r : Except A) (f : A → Run B)
    → ((a : A) → Quiet (f a))
    → Quiet (call r >>= f)
then_call r f k = Quiet-bind (call r) f (Quiet-call r) k

module _ (tools : Tools) where
  Quiet-record_result :
      (h : Hypothesis) (b : Backtest) (rest : Run (List BacktestResult))
      → Quiet rest
      → Quiet (record_result tools h b rest)
  Quiet-record_result h (error e) rest q = q
  Quiet-record_result h (result r) rest q =
      Quiet-bind (emit "backtesting" _) _ (Quiet-emit "backtesting" _ refl)
        (λ _. Quiet-bind rest _ q (λ rs. Quiet-pure (r ∷ rs)))

  Quiet-backtest_loop :
      (plan : ResearchPlan) (prices : Dict (List ℕ)) (hs : List Hypothesis)
      → Quiet (backtest_loop tools plan prices hs)
  unfolding backtest_loop
  Quiet-backtest_loop plan prices [] = Quiet-pure []
  Quiet-backtest_loop plan prices (h ∷ hs) = elim (Option-cases (lookup h.ticker prices)) [
    | inl e ↦ rw (e, backtest_loop) (Quiet-backtest_loop plan prices hs)
    | inr (series, e) ↦
        rw (e, backtest_loop)
          (Quiet-bind (call (backtest_call tools plan h series)) _
            (Quiet-call (backtest_call tools plan h series))
            (λ b.
              Quiet-record_result h b (backtest_loop tools plan prices hs)
                (Quiet-backtest_loop plan prices hs)))
  ]

  Quiet-load_data : (plan : ResearchPlan) → Quiet (load_data tools plan)
  unfolding load_data
  Quiet-load_data plan = search quiet_rules

  Quiet-review_outcome : (r : Except (List String)) → Quiet (review_outcome tools r)
  unfolding review_outcome
  Quiet-review_outcome (ok extra) = search quiet_rules
  Quiet-review_outcome (raise e) = search quiet_rules

  Quiet-report :
      (plan : ResearchPlan) (results : List BacktestResult) (pbo : Pbo)
      → Quiet (report tools plan results pbo)
  unfolding report
  Quiet-report plan results pbo =
      then_call (tools.extract_insights _ _ _ pbo.pbo pbo.verdict) _ (λ insights.
        Quiet-bind (emit_all "insight" _) _ (Quiet-emit_all "insight" _ refl) (λ _.
          Quiet-bind (review_outcome tools _) _ (Quiet-review_outcome _)
            (λ _. then_emit "narrating" _ refl (Quiet-pure _))))

  Quiet-measure : (plan : ResearchPlan) → Quiet (measure tools plan)
  unfolding measure
  Quiet-measure plan = then_emit "planning" _ refl (
      Quiet-bind (load_data tools plan) _ (Quiet-load_data plan) (λ prices.
        then_emit "generating" _ refl (
          then_call (tools.generate_hypotheses plan.plan_tickers plan.families plan.n) _ (λ specs.
            Quiet-bind (backtest_loop tools plan prices specs) _
              (Quiet-backtest_loop plan prices specs)
              (λ results. then_emit "validating" _ refl (
                then_call (tools.validate_portfolio results) _
                  (λ pbo. Quiet-report plan results pbo)))))))

abbrev pub done_event : Emission
done_event = record { kind = "done"; texts = [] }

abbrev pub error_event : String → Emission
error_event e = record { kind = "error"; texts = e ∷ [] }

-- How the emissions of a run end: with the one terminal event "done" where it returns; with the
-- event of the exception, and no "done", where it raises.
abbrev pub EndsWell : List Emission → Except PipelineResult → Type 0
EndsWell es (ok r) = (pre : List Emission) × (es ≡ pre ++ done_event ∷ []) × IsQuiet pre
EndsWell es (raise e) =
    (pre : List Emission) × (es ≡ pre ++ error_event e ∷ [])
    × All (λ x. (x.kind == "done") ≡ false) es

not_done_of_quiet : (es : List Emission) → IsQuiet es → All (λ x. (x.kind == "done") ≡ false) es
not_done_of_quiet [] q = tt
not_done_of_quiet (e ∷ es) q = (ground arith, not_done_of_quiet es q.1)

not_done-append_error :
    (es : List Emission) (e : String)
    → All (λ x. (x.kind == "done") ≡ false) es
    → All (λ x. (x.kind == "done") ≡ false) (es ++ error_event e ∷ [])
not_done-append_error es e q = All-append (λ x. (x.kind == "done") ≡ false) es _ q (refl, tt)

module _ (tools : Tools) (plan : ResearchPlan) where
  conclude_ok :
      (r : PipelineResult) (text : String)
      → narrate_call tools plan r ≡ ok text
      → conclude tools plan r ≡ (done_event ∷ [], ok (record r { narrative = text }))
  unfolding conclude on_error call emit pure ◌>>=◌
  conclude_ok r text e = rw (e, conclude)

  conclude_raise :
      (r : PipelineResult) (x : String)
      → narrate_call tools plan r ≡ raise x
      → conclude tools plan r ≡ (error_event x ∷ [], raise x)
  unfolding conclude on_error call emit pure ◌>>=◌
  conclude_raise r x e = rw (e, conclude)

  run_eq :
      run tools plan
      ≡ on_error_outcome
          (bind_outcome (measure tools plan).0 (measure tools plan).1 (conclude tools plan)).0
          (bind_outcome (measure tools plan).0 (measure tools plan).1 (conclude tools plan)).1
          (λ e. (error_event e ∷ [], ok tt))
  unfolding run on_error emit ◌>>=◌
  run_eq = refl

  finish_shape :
      (es : List Emission) (o : Except PipelineResult)
      → IsQuiet es
      → let m = bind_outcome es o (conclude tools plan) in
        let n = on_error_outcome m.0 m.1 (λ e. (error_event e ∷ [], ok tt)) in EndsWell n.0 n.1
  finish_shape es (raise e) q = (es, refl, not_done-append_error es e (not_done_of_quiet es q))
  finish_shape es (ok r) q = elim (Except-cases (narrate_call tools plan r)) [
    | inl (text, e) ↦ rw (conclude_ok r text e) (es, refl, q)
    | inr (x, e) ↦ rw (conclude_raise r x e) (
      es ++ error_event x ∷ [],
      refl,
      not_done-append_error _ x (not_done-append_error es x (not_done_of_quiet es q)),
    )
  ]

  -- A run that returns has emitted "done" as its last event and no other terminal event; a run that
  -- raises has emitted the event of its exception last, and never "done".
  pub run-EndsWell : EndsWell (run tools plan).0 (run tools plan).1
  run-EndsWell =
      rw run_eq (
        finish_shape (measure tools plan).0 (measure tools plan).1 (Quiet-measure tools plan).quiet)

  -- A narrative that fails ends the stream twice: behind the events of the steps that succeeded the
  -- run emits the event of the failure two times.
  pub run_narrate_fails :
      (es : List Emission) (r : PipelineResult) (x : String)
      → measure tools plan ≡ (es, ok r)
      → narrate_call tools plan r ≡ raise x
      → run tools plan ≡ ((es ++ error_event x ∷ []) ++ error_event x ∷ [], raise x)
  run_narrate_fails es r x m e = rw (run_eq, m) (rw (conclude_raise r x e))
