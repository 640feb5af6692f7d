-- ===== src/Lib.antt =====
-- AQR, an assistant for quantitative research. From a goal in words it plans, loads prices,
-- generates hypotheses, backtests each, validates the portfolio and reports; a bus streams the events
-- of a run to its subscribers, and a chat over a WebSocket drives the same steps as a graph.
--
-- The parts, and the files that model them:
--   Events (aqr/pipeline/events.py): EventBus. Its dicts are association lists; the queues and done
--     flags that it shares with its subscribers live in a store inside the record `Bus`. `publish`,
--     `register_run`, `owns`, `prune` and `history_of` are its methods. Events/Subscriber is the
--     generator `subscribe`, resumed step by step; Events/Subscriber/Trace interleaves it with
--     publications. The clock is an argument.
--   Validation/Cpcv (aqr/validation/cpcv.py): CombinatorialPurgedCV.split, _get_test_ranges and
--     purged_kfold_indices, on index masks; Validation/Combinations has itertools.combinations.
--     Timestamps are numbers, and int(T * embargo_pct) is an argument.
--   Presence (aqr/explore/presence.py): PresenceTracker. An operation returns or waits for the
--     tracker's asyncio.Lock, which is not re-entrant.
--   Research (aqr/types.py, aqr/pipeline/planner.py): the values that the steps hand on, and the
--     registered tools as one record, which the agent and the executor take as a parameter.
--   Agent (aqr/graph/graph.py): the nodes, the routers (Agent/Router), the edges and run_agent
--     (Agent/Pipeline). LangGraph's engine is a parameter that runs nodes and follows edges.
--   Executor (aqr/pipeline/executor.py): PipelineExecutor.run as its emissions and its outcome. An
--     emission keeps its kind and the texts that vary by name; the run's id, the other texts and the
--     times are left out.
--   Chat (aqr/chat/ws.py): chat_ws and the runs of the agent for its messages. A client that
--     disconnects is a bound on the messages that it takes. The graph's stream is a parameter.
--   Credentials (aqr/llm_env.py): resolve_llm_credentials and llm_env_override on an environment.
--   Auth (aqr/auth.py): signing and verifying session tokens. HMAC and the encodings are a parameter,
--     with their round trips as the hypothesis `IsSound`.
--   Hypotheses (aqr/pipeline/hypotheses.py): generate_hypotheses with numpy's generator as a parameter,
--     and, in Hypotheses/Signals, the positions of three families on whole prices.
--   Data (aqr/data): Data/Cache is OhlcvCache on a table that is an interface with laws, Data/Adapter
--     is TInvestAdapter on a service that is a parameter, and Data/Loading is load_prices of
--     aqr/tools/core.py, which reads through the one to the other.
--   Validation/Pbo (aqr/validation/pbo.py): the probability of overfitting on a matrix of columns, with
--     the numbers, numpy's statistics of a column and its draw of combinations as parameters.
--   Validation/Sharpe (aqr/validation/deflated_sharpe.py): the deflated Sharpe ratio and the verdict on
--     it, with scipy's normal distribution as a parameter, and Validation/Bootstrap
--     (aqr/validation/reality_check.py): the stationary bootstrap and White's test on a source of
--     draws. Floats is the record of the operations on floats that these and the next two take.
--   Backtest (aqr/tools/core.py, aqr/executor/nautilus.py): backtest_one, _cpcv_sharpe and
--     execute_with_slippage, with the function of a hypothesis as a parameter.
--   Screener (aqr/screener/vectorbt.py): the grid search over the windows of two averages, with the
--     backtest of a pair as a parameter.
--   Portfolio (aqr/tools/core.py): validate_portfolio, with the probability of overfitting of a matrix
--     as a parameter.
--   Registry (aqr/registry/store.py): RegistryStore on tables as lists. ORDER BY is an interface with
--     laws, as it leaves the order of equal keys open. Registry/Settings has the encrypted settings,
--     Registry/Search the search by embeddings, Registry/Explore the queries of the pages, and
--     Registry/Context aqr/graph/context.py.
--   Api (aqr/pipeline/api.py, aqr/background.py): the routes of a run and its background task, which
--     puts the executor's events on the bus and its outcome into the registry.
--   Analyst (aqr/agents/analyst.py), Team (aqr/agents): the analyst, and run_team of orchestrator.py
--     with the editor, the reviewer and the writer; the texts of errors are cut to their first words.
--   ToolRegistry (aqr/tools/__init__.py, aqr/tools/register.py): the registry of the tools.
--   Storage (aqr/tools/storage.py): the tools on the registry, with the embeddings as a parameter.
--   Mcp (aqr/mcp): the dispatch of JSON-RPC requests and its four handlers, with the services as
--     parameters.
--   Web (aqr/chat/web.py): the rate limit and the pages of the settings.
--   Llm (aqr/pipeline/planner.py, narrator.py and reviewer.py, aqr/tools/core.py): the requests to a
--     language model and the reading of its answers; Llm/Fence is strip_markdown_fence of aqr/llm_env.py,
--     Llm/Embedder is aqr/registry/embeddings.py, and Llm/Insights is extract_insights. litellm, the client
--     of OpenAI and json.loads are parameters.
--   Common: names of the libraries passed on, and the dicts, lists, options, exceptions, the stable
--     descending sort and the sweep of stale entries that the parts share. Values: dynamic values.
--   The Examples modules apply the theorems at concrete inputs.
--
-- Loops are structural recursion, on fuel in one place: the resampling of Validation/Bootstrap takes the
-- number of rows as its fuel, which is enough as every block has a row or more. Floats are numbers or,
-- where the code computes with them, an arbitrary type with its operations: the deflated Sharpe
-- ratios of a report are in thousandths, as the rounding leaves them.
--
-- Not modelled: the prompts and the texts of messages, insights and pages, the median of the rank
-- degradation, the address of a client behind a proxy, the encryption of values and the start-up.
pub mod Common
pub mod Values
pub mod Research
pub mod Team
pub mod ToolRegistry
pub mod Events
pub mod Validation
pub mod Portfolio
pub mod Presence
pub mod Registry
pub mod Agent
pub mod Analyst
pub mod Api
pub mod Executor
pub mod Chat
pub mod Data
pub mod Hypotheses
pub mod Credentials
pub mod Auth
pub mod Floats
pub mod Backtest
pub mod Web
pub mod Storage
pub mod Mcp
pub mod Screener
pub mod Llm
