-- ===== src/Llm/Reports/Bounds.antt =====
-- aqr/pipeline/reviewer.py: what a review returns, and what it leaves in the environment.
use pigeon_trade.Common.{
  ℕ, ◌≤◌, String, Bool, true, Option, none, some, List, [], ◌∷◌, map, length, keep, length-take,
  All, All-take, ◌≡◌, refl, arith, ◌∙◌,
}
use pigeon_trade.Common.Dict.{Dict, lookup}
use pigeon_trade.Common.Except.{Except, ok, raise, AllOk, AllOk-then}
use pigeon_trade.Research.{BacktestResult}
use pigeon_trade.Values.{PyValue, list, nil}
use pigeon_trade.Credentials.{Settings, llm_env_keys, llm_env_override, resolve_llm_credentials}
use pigeon_trade.Credentials.Override.{mem, llm_env_override-restores}
use pigeon_trade.Llm.{Reported, Prompt, review, Choices, LlmCall, ask_model, called_as, model_or}
use pigeon_trade.Llm.Fence.{Letters, strip, strip_markdown_fence}
use pigeon_trade.Llm.Answer.{value_or, fields_of, items_of, is_truthy}
use pigeon_trade.Llm.Reports.{
  without_returns, told, shortened, first_three, listed_in, observations, observations_loaded,
  observations_of, review_result, review_insights,
}

-- At most three texts, of at most four hundred letters each.
abbrev pub AreShort : List Letters → Type 0
AreShort os = (length os ≤ 3) × All (λ o. length o ≤ 400) os

abbrev pub IsBounded : List BacktestResult → Except (List Letters) → Type 0
IsBounded [] result = result ≡ raise "ValueError"
IsBounded (t ∷ ts) result = AllOk AreShort result

module _ (litellm : String → Prompt → LlmCall Choices) (has : String → String → Bool)
    (session : Option Settings) where
  -- Whatever a call does, the keys of the language models are behind it what they were before.
  lookup-called_as {ℓ} :
      {A : Type ℓ} (m : Prompt) (read : Choices → Except A) (c : Except Settings)
      (env : Dict String) (k : String)
      → mem k llm_env_keys ≡ true
      → lookup k (called_as litellm has session m read c env).0 ≡ lookup k env
  unfolding called_as
  lookup-called_as m read (raise e) env k h = refl
  lookup-called_as m read (ok creds) env k h =
      llm_env_override-restores (has creds.llm_model) creds.llm_api_key k
        (litellm creds.llm_model m) env
      ∙ rw h refl

  AllOk-called_as :
      {A : Type 0} (P : A → Type 0) (m : Prompt) (read : Choices → Except A) (c : Except Settings)
      (env : Dict String)
      → ((choices : Choices) → AllOk P (read choices))
      → AllOk P (called_as litellm has session m read c env).1
  unfolding called_as
  AllOk-called_as P m read (raise e) env h = tt
  AllOk-called_as P m read (ok creds) env h =
      AllOk-then P
        (llm_env_override (has creds.llm_model) creds.llm_api_key (litellm creds.llm_model m) env).1
        read h

  module _ (is_space : ℕ → Bool) (loads : Letters → Option PyValue) (text : PyValue → Letters)
      (letters : String → List PyValue) where
    All-shortened :
        (os : List PyValue)
        → All (λ o. length o ≤ 400) (map (shortened is_space loads text letters) os)
    All-shortened [] = tt
    All-shortened (o ∷ os) =
        (omega (arith, length-take 400 (strip is_space (text o))), All-shortened os)

    first_three-AreShort :
        (os : List PyValue) → AreShort (first_three is_space loads text letters os)
    first_three-AreShort os =
        let all = map (shortened is_space loads text letters) (keep is_truthy os) in
        (
          omega (arith, length-take 3 all),
          All-take (λ o. length o ≤ 400) 3 all (All-shortened (keep is_truthy os)),
        )

    observations-AreShort :
        (data_ : PyValue) → AllOk AreShort (observations is_space loads text letters data_)
    unfolding observations
    observations-AreShort data_ =
        AllOk-then AreShort (fields_of data_) (listed_in is_space loads text letters) λ vs.
          AllOk-then AreShort (items_of letters (value_or vs "observations" (list nil)))
            (λ os. ok (first_three is_space loads text letters os)) first_three-AreShort

    observations_of-AreShort :
        (choices : Choices) → AllOk AreShort (observations_of is_space loads text letters choices)
    unfolding observations_of
    observations_of-AreShort [] = tt
    observations_of-AreShort (none ∷ choices) = tt
    observations_of-AreShort (some content ∷ choices) =
        elim (loads (strip_markdown_fence is_space content))
          as (λ x. AllOk AreShort (observations_loaded is_space loads text letters x)) [
            | none ↦ tt
            | some data_ ↦ observations-AreShort data_
          ]

    review_result-IsBounded :
        (model : Option String) (r : Reported) (top : List BacktestResult) (insights : List String)
        (env : Dict String) (k : String)
        → mem k llm_env_keys ≡ true
        → IsBounded top
            (review_result is_space loads text letters litellm has session model r top insights
              env).1
          × (lookup k
                (review_result is_space loads text letters litellm has session model r top insights
                  env).0
              ≡ lookup k env)
    unfolding review_result ask_model
    review_result-IsBounded model r [] insights env k h = (refl, refl)
    review_result-IsBounded model r (t ∷ ts) insights env k h =
        let m = review r (map (λ b. length b.daily_returns) (t ∷ ts)) insights in
        let read = observations_of is_space loads text letters in
        let creds = resolve_llm_credentials session (model_or model env) env in
        (
          AllOk-called_as AreShort m read creds env observations_of-AreShort,
          lookup-called_as m read creds env k h,
        )

    IsBounded-without_returns :
        (top : List BacktestResult) (result : Except (List Letters))
        → IsBounded (map without_returns top) result
        → IsBounded top result
    IsBounded-without_returns [] result h = h
    IsBounded-without_returns (t ∷ ts) result h = h

    abbrev pub reviewed :
        (List String → List String)
        → String
        → List BacktestResult
        → List String
        → ℕ
        → String
        → LlmCall (List Letters)
    reviewed = review_insights is_space loads text letters litellm has session

    -- The tool's review of results, whatever the model answers: without results it is a ValueError, and
    -- with some it fails or returns at most three observations of at most four hundred letters each;
    -- the keys of the language models in the environment are behind it what they were before.
    pub review_insights-IsBounded :
        (distinct : List String → List String) (goal : String) (top : List BacktestResult)
        (insights : List String) (pbo : ℕ) (verdict : String) (env : Dict String) (k : String)
        → mem k llm_env_keys ≡ true
        → IsBounded top (reviewed distinct goal top insights pbo verdict env).1
          × (lookup k (reviewed distinct goal top insights pbo verdict env).0 ≡ lookup k env)
    unfolding review_insights
    review_insights-IsBounded distinct goal top insights pbo verdict env k h =
        let run =
          review_result-IsBounded none (told distinct goal top pbo verdict)
            (map without_returns top) insights env k h in
        (
          IsBounded-without_returns top (reviewed distinct goal top insights pbo verdict env).1
              run.0,
          run.1,
        )
