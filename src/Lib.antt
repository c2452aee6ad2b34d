-- ===== src/Lib.antt =====
-- Gateyes is a gateway between the clients of many tenants and the providers of language models. A
-- request passes the rate limiter and the budgets, the cache may answer it, the router orders the
-- providers that may, the circuit breaker leaves out those that fail, and what it cost is charged
-- to the ledger. This library models these parts and proves what makes each correct. Inference is
-- the workflow that calls the others through ports; otherwise each part is stated by itself, on its
-- state and the arguments of its calls, since the service that joins them,
-- internal/service/responses, is modelled only in its circuit breaker, its call of a provider and
-- its tools.
--
-- Inference: internal/application/inference/orchestrator.go. `create` is Create on a request that
--   is not nil (in Inference.Creation), `attempts_loop` and `candidates_loop` are its two loops,
--   and `serve` is what follows the creation of the record. A port is a function of the log of the
--   calls made so far.
-- Breaker: internal/service/responses/circuit_breaker.go. `CircuitBreaker` is the struct, with one
--   function for each method (TryAcquireHalfOpenRequest, ReleaseHalfOpenRequest, IsAvailable,
--   RecordSuccess, RecordFailure, GetState, GetAllStates, PersistState, RestoreState), and
--   `acquire_state`, `available_state`, `success_state` and so on for what a method does to the
--   circuit of one key. Breaker.Transitions has the calls, their runs and the state machine,
--   Breaker.Operations adds RestoreState; the text in Redis expires after five minutes.
-- Limiter: internal/service/limiter: limiter.go without Redis, and redis.go in Limiter.Redis, where
--   a script is a step on hashes that expire after 120 seconds. Limiter.Bucket is TokenBucket,
--   Limiter.Rates the functions that read the configuration, Limiter the bucket maps, NewLimiter,
--   Reload and a tick of refillLoop on a heap of buckets, since maps and specs share buckets;
--   Limiter.Admission is Check, buildLimitSpecs and localCheck, Limiter.Users the older check.
-- Cache: internal/service/cache: memory_cache.go in Cache.Memory, layered_cache.go and
--   fallback_cache.go in Cache.Layers over an interface with the laws a layer meets.
-- Retry: internal/pkg/retry/retry.go. `do_retry` is Do, `do_from` its loop.
-- Ledger: internal/repository/sqlstore/budget_ledger.go. `consume_budget_ledger` and its neighbours
--   are the Lua scripts, each a step on the hashes; Ledger.Flush has flushBudgetScopeDelta as its
--   commands, `flush_step`, between which scripts run, and the errors that it drops, `drop_error`.
-- Batch: internal/repository/sqlstore/batches.go and internal/service/batch/service.go. Batch.Store
--   has one function for each transaction, on the two tables; Batch.Work the service at work:
--   `task_step` is the next transaction of the loop of Create or of handleBatchItemEvent, and
--   `step` lets any task go on, die, or be started again, while jobs are created and cancelled.
-- Budget: internal/service/budget/budget.go. `check` is Check, `check_scope` the body of its loop.
-- Auth: internal/service/auth/auth.go without Redis. `authenticate` is Authenticate, with the cache
--   of identities as its state; the checks, RequireRole and recordUsage have their names.
-- Calling: internal/service/responses/retry.go. `call_with_retry` is callWithRetry, `call_from` its
--   loop.
-- Tools: internal/service/responses/tool_ownership.go. `validate_tool_ownership` is
--   validateToolOwnership, and `run_gateway_tool_loop` runGatewayToolLoop from its checks of nil
--   on; each of its rounds calls `call_with_retry` of Calling, and Tools.Turns has what a round
--   does with a response.
-- Router: internal/service/router. Router.Order is the state of router.go with OrderCandidates,
--   SelectFromWithContext, PromoteAffinity, SetProviders and Reload; Router.Strategies and
--   Router.RoundRobin are orderByStrategyLocked, Router.Affinity, Router.Session and Router.Prefix
--   the affinities (affinity.go, session_affinity.go, prefix_affinity.go), Router.Rules
--   rule_engine.go, Router.Profile profile.go, Router.Explain ExplainOrderCandidates with trace.go.
--   What `rand` returns, and what the scraper and the statistics tell, are arguments of a call.
-- ProviderStats: internal/service/provider/stats.go, with a function for each method; what a method
--   does to the entry of one provider stands beside it (`recorded`, `load_decremented` and so on).
-- Common: Boolean tests, equality as an interface, lists, Go's maps, integers.
-- Examples: each theorem that has conditions, at an input that meets them.
--
-- Conventions. A method under a mutex, a Lua script and a SQL transaction are one step each, the
-- last as on SQLite, the default driver, which runs transactions one after another. The clock is an
-- argument: nanoseconds that do not go back, as Go's monotonic clock. Floats are exact: a bucket
-- counts in units of a sixty billionth of a token, so that a rate in tokens a minute fills a whole
-- number of units each nanosecond; money, unit costs, scores and latencies count in units of some
-- smallest amount. A stable sort is the insertion sort that Go's is on up to twenty elements.
-- Numbers that the configuration's check demands not to be negative are natural; counters do not
-- wrap; the delay of a retry does, at 64 bits. A map is an association list of which the first
-- entry with a key counts. Loops recurse on their lists; the four that do not are on a number of
-- rounds: eviction from the cache has as many rounds as the list has entries, each of which drops
-- one, Do and callWithRetry have as many as there are attempts left, and the loop of tools one more
-- than its maximum, which its theorem shows to be enough. Answers of other programs and libraries
-- (Redis, SQL, JSON, regular expressions, hashes, the function that is retried) are arguments.
--
-- Not modelled: the transport, the providers' protocols, plugins, guardrails, persistence other
-- than the ledger and the batches, the administration, telemetry and the web interface; of the
-- parts above, the interleaving of batch transactions under the READ COMMITTED of PostgreSQL, the
-- limiter's queue of goroutines, the SQL fall-back of the ledger and the calls that build its keys,
-- the checks of a batch request and the lists of batches, the shared cache of identities in Redis,
-- the scraper of inference metrics, the averages of the statistics, which are floats, and the
-- distributed and the semantic cache.

pub mod Common
pub mod Batch
pub mod Breaker
pub mod Limiter
pub mod Cache
pub mod Retry
pub mod Inference
pub mod Router
pub mod ProviderStats
pub mod Ledger
pub mod Budget
pub mod Auth
pub mod Calling
pub mod Tools
mod Examples
