-- ===== src/Lib.antt =====
-- Verification library of AgentOS, a Go platform that runs agents for many tenants.
--
-- The modelled parts and their files, with paths from the repository's root:
--   Governance      internal/governance: the engine that decides on each tool call (engine.go,
--                   types.go) with its kill switch (killswitch.go), rate limiter, loop detector
--                   and circuit breaker. The engine asks them in that order and records the call
--                   in the limiter and the detector once all have passed it.
--   ModelPolicy     modelpolicy/resilience.go: the circuit breaker that the requests of one
--                   provider share, and the retry loop around a request.
--   Jobs            internal/jobs: the in-memory job queue and one poll of its worker.
--   Quota           internal/quota: the token buckets and the concurrency counts of tenants, and
--                   the hourly token budgets.
--   Federation      federation: the event store, the forward index and the peer registry.
--   Mcp             mcp/governance_middleware.go: the guard of a tool call, which asks the engine
--                   of Governance before the tool's handler runs and tells it the result; and the
--                   tool server: its registry (registry.go), the clearance of agents
--                   (clearance_store.go, AuthorizeToolCall of auth.go) and the handler of a
--                   JSON-RPC request (server.go), which asks clearance and the engine in turn.
--   Access          internal/auth/rbac.go, RequireTenant of internal/auth/context.go and
--                   internal/middleware/rbac.go: who may call, over an abstract member store.
--   Pii             internal/pii: the patterns of personal data (patterns.go), the detector
--                   (detector.go) and the redactor (redactor.go), on texts as lists of bytes. What
--                   a regular expression matches in a text is an argument.
--   Orchestrator    the life of a run. Types are the runs of internal/types/stacka.go, Messages
--                   those of modelpolicy/chat.go and agentorchestrator/prompt.go. RunStore is
--                   internal/storage/file_run_store.go, EventSink agentorchestrator/events.go.
--                   AgentLoop and Execution are executeRun of agentorchestrator/agent_loop.go:
--                   it reads and saves the run in RunStore, emits to EventSink, asks Pii whether a
--                   message may go out, and records tokens in the budget of Quota. Executor is
--                   agentorchestrator/executor.go: which sinks and cancellations are on the
--                   books between a job's submission and the sweep after its end. RunHandlers
--                   are the requests of agentorchestrator/server.go that create, retry and cancel
--                   runs, which ask the limiter and the budget of Quota first.
--   Tools           internal/tools/math_eval.go: MathEval is the parser that evaluates arithmetic
--                   expressions, Scanner its tests on bytes and its scanning of a number, and
--                   Grammar an independent description of the expressions and their values.
--   Storage         internal/storage: the key-value store (FileKvStore, file_kv_store.go) and the
--                   conversation memory of agents (FileMemoryStore, file_memory_store.go), on the
--                   files of Files, with ValidateKey of internal/types/storage.go and
--                   EstimateTokens of internal/tokens.
--   Network         internal/ssrf/ssrf.go: which addresses a request may go to.
--   Prelude         shared helpers: Boolean tests, lists, sorting, and Go's maps as association
--                   lists.
--
-- A Go struct is a record and a function under its mutex is one step that returns the new state.
-- Function names are the source's in snake case. A module `X/Y.antt` below `X.antt` states
-- theorems about the definitions of `X.antt`; the modules Examples hold tests and instances.
--
-- Conventions. A time is a number of nanoseconds, and the clock is an argument of each call. An
-- `int` that the code only compares with positive limits is a natural number. A map is an
-- association list in any order. An error or denial text is a constructor with the arguments of
-- its format. JSON encoding, identifiers, number and duration parsing, job handlers and the
-- providers' answers are arguments. A float is an exact fraction or a scaled integer. Log lines,
-- metrics, goroutine start-up and HTTP plumbing are not modelled.
--
-- An execution of a run takes its surroundings as arguments: a turn for each step says what the
-- model answers, what each tool returns, whether the context is done, and which calls other
-- requests make on the run store while the model answers. Tools run side by side in the code and
-- their results are read in the order of the calls, as here. The definitions of the tools, the
-- scan of the model's output (which only logs), event ids and the goroutine of an automatic
-- retry are left out: the runs to be retried are listed. sort.Slice is an insertion sort. The
-- order in which a map lists its entries is that of the association list.
--
-- Each save of an execution, and each save of a request to cancel with its cascade, has its own
-- answer of the disk.
--
-- The tool server reads an HTTP request whose context holds no identity of its own. Clearance
-- tiers are natural numbers. A registered handler runs on a state that the tools share. The
-- evaluator's text is a list of bytes; unicode's tests are those of Latin-1, since the code asks
-- them about single bytes; the operations on floats, ParseFloat and TrimSpace are arguments.
--
-- A file of Storage is missing, empty, broken, or holds what its JSON decodes to; its path and
-- whether a write succeeds are arguments. Keys and values are bytes in valid UTF-8. An address of
-- Network is its bytes; parsing one and the name server are arguments.
--
-- Loops. Loops over collections are recursions on the list; the retry loop recurs on the
-- attempts left; the eviction of the job queue takes the number of jobs as fuel, and each round
-- removes one job. The selection loop of the rate limiter recurs on the number of buckets to
-- remove, the eviction of stored runs on their order of arrival. The agent loop recurs on the
-- steps left of the run's maximum, the cascade of a cancellation on the levels left of the depth
-- limit, the eviction of the run store on its order of use. The mutually recursive parser of
-- expressions has 8 units of fuel for each byte of the text and 8 more: it makes fewer than 8
-- nested calls before it passes the next byte.
--
-- Not modelled: the other HTTP handlers and servers, the Postgres and other file stores, the model
-- and tool services, the intent router, goroutines and channels, configuration,
-- cryptography and observability.
mod Prelude
pub mod Access
pub mod Federation
pub mod Governance
pub mod Jobs
pub mod Mcp
pub mod ModelPolicy
pub mod Network
pub mod Orchestrator
pub mod Pii
pub mod Quota
pub mod Storage
pub mod Tools
