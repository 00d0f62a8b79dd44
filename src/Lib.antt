-- ===== src/Lib.antt =====
-- Verification of the agentops order-support application: the Python code under app/.
--
-- The application. A FastAPI service (app/main.py, app/routes/agent.py) serves a store. Its callers
-- carry Keycloak tokens (app/auth.py). Orders, refunds and preferences are rows in PostgreSQL, which
-- app/database.py alone reads and writes. A chat request runs a LangGraph graph of a supervisor and
-- three specialists (app/agent_graph.py), whose tools read orders or start Temporal workflows
-- (app/temporal_service.py); the workflows (app/temporal_workflows/workflows.py) call activities
-- (app/temporal_workflows/activities.py), and these the functions of app/database.py.
--
-- The files.
--   Prelude    the library's names and the lemmas on lists and Boolean tests that all parts share.
--   Text       Python's str as a list of code points, with the methods that app/ calls. Text/Regex is
--              Python's re for the patterns of app/guardrails.py: matching by backtracking, and what
--              a search finds told by the matches that there are.
--   Database   app/database.py. Schema has the rows, Sql the transactions (an error rolls back) and
--              the constraints that PostgreSQL checks. Orders, Listing, Refunds and Memories have the
--              functions of the module, under their own names. Invariant says what holds between two
--              transactions; Cancellation, Creation, Privacy, Refunding, Totals and the Laws modules
--              prove what the functions do. Seeding is `initialize_database` on tables that exist.
--              Lifecycle is the life of an order: which status follows which.
--   Workflows  app/temporal_workflows/. Activities is models.py and activities.py with the retry
--              policy. Cancel and Refund are the two workflows: a `run` is cut at its awaits into one
--              function for each stretch, from what the await returned to the next await. Cancel/Run
--              and Refund/Run put the stretches together. System is a step relation of all
--              refund runs over one database, with signals, lost answers, dropped attempts,
--              timeouts, cancellations and new orders in any order. System/Progress and
--              System/Ending are about the steps that a run takes of its own, System/Orders is
--              about what becomes of the orders.
--   Agent      the graph of app/agent_graph.py: its state, nodes and routes; Run has the supersteps.
--   Tools      the tools of app/agent_graph.py, with the starts of app/temporal_service.py. Dispatch
--              finds a tool by its name and gives it its arguments; Dispatch/Privacy runs a whole
--              request over the tools.
--   Chat       app/routes/agent.py: Reasoning is `strip_reasoning`, Stream the events that a request
--              is answered with, Endpoints the chat and the approval of refunds, Conversations the
--              end of a conversation and the search.
--   Service    the parts together: histories of tool calls, approvals, starts of the API and steps of
--              the Temporal server, which starts and signals a run only as it was asked. Genuine is
--              what holds of every state that is reached; Refunds and Cancellations say where a refund
--              and a cancellation come from.
--   Guardrails app/guardrails.py: the patterns, the card check and the validations. Judged and Cards
--              tell what the validations refuse. Nemo is app/nemo_guardrails.py without its settings.
--   Auth       app/auth.py: the token, the roles and the customer scope.
--   Api        app/main.py: Orders, Catalog (products, health and the caller), Spa, the fallback
--              of the user interface to index.html, and Logged, the middleware of the request ids.
--              Requests puts the order endpoints behind the dependencies on the caller.
--   Settings   app/model_factory.py and the settings of app/nemo_guardrails.py.
--   Memory     the sorted set of active conversations of app/conversation_memory.py and its sweep;
--              Keys is about the names of conversations, Loop is the loop of sweeps, and Summaries is
--              the table of summaries with the functions that write and search it.
--   Examples   the theorems at concrete inputs.
--
-- The numbers. Money is counted in cents, as NUMERIC(10, 2) does; a total is exact. Ids are
-- natural numbers: BIGINT's bound is not modelled. INTEGER quantities are between 1 and 10 by
-- their CHECK. The number of an order is printed with fuel n + 1, one for each digit, which is
-- more than n has digits. A request runs the graph with GRAPH_RECURSION_LIMIT, 10, as fuel, of
-- which a request that goes through all three iterations uses 7. A cancellation run has the
-- three attempts of the retry policy as fuel. A limit of a query parameter is an integer. The `*` and
-- `+` of a pattern repeat at most as often as the text has characters, and each round takes one.
--
-- The parameters. PyJWT and the JWKS client, the language models and the policy models, the
-- embeddings and the scan of their approximate index, the stream of the graph's events, LangGraph's
-- ToolNode, nemoguardrails, the Temporal server and the collation of the database are arguments of
-- the definitions that use them; in Service the server is the list of what it was asked for. Of
-- ToolNode the development relies on one fact, that it acts on the world through its tools only and
-- gives them the `user_id` of the state. A transaction is one step: the rows that it reads are
-- locked by FOR UPDATE or written by one statement. The table of summaries is kept apart from the
-- others, since no function reads both.
--
-- Not modelled. An attempt of an activity that has been reported as timed out and commits later, after
-- a retry has begun. Logging but for the lines of the middleware, and process start, the Temporal worker's
-- included; the prompts of the agents; the caches of the model getters; the text of the server-sent
-- events and of ToolNode's messages; frontend/, k8s/ and scripts/. Text is cased, stripped and matched
-- as ASCII.
pub mod Prelude
pub mod Text
pub mod Database
pub mod Workflows
pub mod Tools
pub mod Settings
pub mod Auth
pub mod Api
pub mod Agent
pub mod Guardrails
pub mod Memory
pub mod Chat
pub mod Service
pub mod Examples
