-- ===== src/ToolRegistry.antt =====
-- aqr/tools/__init__.py and aqr/tools/register.py: the registry of the tools, and the registration
-- of all of them. A spec keeps its name, its input schema and its category; the texts for the
-- LLM and the functions are left out.
pub mod Registration
mod Examples
use pigeon_trade.Common.{
  ℕ, String, Bool, true, false, Option, none, some, List, [], ◌∷◌, ◌++◌, map, length, leb,
  if◌then◌else◌,
}
use pigeon_trade.Common.Dict.{Dict, lookup, insert, contains}
use pigeon_trade.Common.Except.{Except, ok, raise, ◌>>=◌}

pub record ToolSpec : Type 0 where
  pub name : String
  -- the input schema: the properties with their types, and the required ones
  pub properties : Dict String
  pub required : List String
  pub category : String

-- The dict _tools of the one ToolRegistry, and the flag _registration_done.
pub record Registered : Type 0 where
  pub tools : Dict ToolSpec
  pub registration_done : Bool

-- ToolRegistry.register
unfoldable pub register : ToolSpec → Dict ToolSpec → Except (Dict ToolSpec)
register tool tools =
    if contains tool.name tools then raise "ValueError" else ok (insert tool.name tool tools)

-- ToolRegistry.get
unfoldable pub get : String → Dict ToolSpec → Option ToolSpec
get name tools = lookup name tools

-- ToolRegistry.list_all
unfoldable pub list_all : Dict ToolSpec → List ToolSpec
list_all tools = map (λ e. e.1) tools

-- _safe_register
unfoldable pub safe_register : ToolSpec → Dict ToolSpec → Except (Dict ToolSpec)
unfolding register get
safe_register tool tools = elim (get tool.name tools) [
  | none ↦ register tool tools
  | some found ↦ ok tools
]

-- The calls of _safe_register in a row.
unfoldable pub register_each : List ToolSpec → Dict ToolSpec → Except (Dict ToolSpec)
unfolding safe_register
register_each [] tools = ok tools
register_each (tool ∷ specs) tools = safe_register tool tools >>= register_each specs

abbrev pub spec : String → Dict String → List String → String → ToolSpec
spec name properties required category = record {
  name = name;
  properties = properties;
  required = required;
  category = category;
}

-- The specs that register_all makes, in order: the tools of the pipeline, and those of the storage.
abbrev pub pipeline_tools : List ToolSpec
pipeline_tools =
    spec "plan_research" (("goal", "string") ∷ []) ("goal" ∷ []) "pipeline"
    ∷ spec "load_prices"
        (("tickers", "array of string")
          ∷ ("start_date", "string")
          ∷ ("end_date", "string")
          ∷ ("timeframe", "string")
          ∷ [])
        ("tickers" ∷ []) "pipeline"
    ∷ spec "generate_hypotheses"
        (("tickers", "array of string") ∷ ("families", "array of string") ∷ ("n", "integer") ∷ [])
        ("tickers" ∷ "families" ∷ []) "pipeline"
    ∷ spec "backtest_one"
        (("hypothesis", "object")
          ∷ ("prices", "array of number")
          ∷ ("n_hypotheses", "integer")
          ∷ ("cpcv_splits", "integer")
          ∷ ("cpcv_test_splits", "integer")
          ∷ ("embargo_pct", "number")
          ∷ [])
        ("hypothesis" ∷ "prices" ∷ []) "pipeline"
    ∷ spec "validate_portfolio" (("results", "array of object") ∷ []) ("results" ∷ []) "pipeline"
    ∷ spec "extract_insights"
        (("top_results", "array of object")
          ∷ ("n_tested", "integer")
          ∷ ("n_survived", "integer")
          ∷ ("pbo", "number")
          ∷ ("pbo_verdict", "string")
          ∷ [])
        ("top_results" ∷ []) "pipeline"
    ∷ spec "review_insights"
        (("goal", "string")
          ∷ ("top_results", "array of object")
          ∷ ("deterministic_insights", "array of string")
          ∷ ("pbo", "number")
          ∷ ("pbo_verdict", "string")
          ∷ [])
        ("goal" ∷ "top_results" ∷ "deterministic_insights" ∷ []) "pipeline"
    ∷ spec "narrate"
        (("goal", "string")
          ∷ ("tickers", "array of string")
          ∷ ("families", "array of string")
          ∷ ("n_tested", "integer")
          ∷ ("n_survived", "integer")
          ∷ ("pbo", "number")
          ∷ ("pbo_verdict", "string")
          ∷ ("top_results", "array of object")
          ∷ ("elapsed_seconds", "number")
          ∷ [])
        ("goal" ∷ []) "pipeline"
    ∷ []

abbrev pub storage_tools : List ToolSpec
storage_tools =
    spec "get_run" (("run_id", "string") ∷ []) ("run_id" ∷ []) "storage"
    ∷ spec "compare_runs" (("run_id_a", "string") ∷ ("run_id_b", "string") ∷ [])
        ("run_id_a" ∷ "run_id_b" ∷ []) "storage"
    ∷ spec "list_runs" (("session_id", "string") ∷ ("limit", "integer") ∷ []) [] "storage"
    ∷ spec "search_similar_hypotheses"
        (("text", "string") ∷ ("threshold", "number") ∷ ("limit", "integer") ∷ []) ("text" ∷ [])
        "storage"
    ∷ spec "find_duplicates"
        (("text", "string") ∷ ("threshold", "number") ∷ ("limit", "integer") ∷ []) ("text" ∷ [])
        "storage"
    ∷ []

abbrev pub all_tools : List ToolSpec
all_tools = pipeline_tools ++ storage_tools

-- _EXPECTED_TOOL_COUNT
abbrev pub expected_tool_count : ℕ
expected_tool_count = 13

-- register_all
unfoldable pub register_all : Registered → Except Registered
unfolding register_each
register_all s =
    if s.registration_done
    then ok s
    else if leb expected_tool_count (length s.tools)
    then ok (record s { registration_done = true })
    else (register_each all_tools s.tools >>= λ tools.
        ok (record { tools = tools; registration_done = true }))

-- reset_for_testing
unfoldable pub reset_for_testing : Registered → Registered
reset_for_testing s = record { tools = []; registration_done = false }
