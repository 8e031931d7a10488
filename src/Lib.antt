-- ===== src/Lib.antt =====
-- A verification library of the XLM-Pay backend (Backend/src): the workflow engine, the services of
-- authentication, the limits on requests, the voice conversations, the delivery of Stellar events, and
-- the prompts to OpenAI.
--
-- The parts and their modules:
-- * Base, Repository: shared names, numbers and texts; JSON values with JSON.stringify and its
--   replacer list; a TypeORM repository as an interface whose laws count the rows that meet a
--   condition, and a table in memory that meets them.
-- * Workflow.StateMachine (workflow/services/workflow-state-machine.service.ts): the two
--   transition tables, the predicates on states, shouldRetry and calculateNextRetryTime.
-- * Workflow.Entities, Workflow.Services, Workflow.Monad: the rows of workflow/entities and the
--   interfaces of workflow/types; the two repositories, the clock, timers, random source and
--   SHA-256 as a record of operations with its laws; asynchronous code as a state-passing function
--   with an outcome. What was written before an exception stays written.
-- * Workflow.Idempotency (workflow/services/idempotency.service.ts): the keys, and
--   checkIdempotency.
-- * Workflow.Compensation (workflow/services/compensation.service.ts): compensateWorkflow and its
--   forced variant. It loads objects of its own.
-- * Workflow.Execution (workflow/services/workflow-execution.service.ts): executeStep in Step, the
--   rest in Engine, startWorkflow and its lock in Workflow.Start. The `workflow` object that the
--   methods share by reference stands in the state beside the database, so that an object and its
--   row can differ. The engine calls the compensation when a step times out.
-- * Workflow.Recovery (workflow/services/recovery.service.ts): orphaned workflows and stuck steps.
-- * Auth.Nonce, Auth.Wallet, Auth.Tokens, Auth.Sessions (auth/services/nonce.service.ts,
--   wallet.service.ts, api-token.service.ts, jwt-auth.service.ts, auth/guards/api-token.guard.ts):
--   each over a repository.
-- * Limits.RateLimit (auth/services/rate-limit.service.ts with auth/guards/rate-limit.guard.ts)
--   and Limits.Throttle (throttle): over the sorted sets and the counters of Redis.
-- * Voice.Conversation, Voice.Sessions, Voice.Quota, Voice.LanguageCache
--   (voice/services/conversation-state-machine.service.ts, voice-session.service.ts with
--   session-cleanup.service.ts, quota.service.ts, llm-cache.service.ts): over values, sets and
--   numbers of Redis that expire. The sessions ask the state machine for each change of state.
-- * Ai (ai/ai.service.ts, quota/quota.service.ts, cache/ai-cache.service.ts, providers):
--   handlePrompt with its quota, its cache, the fallback and the circuit breaker of the calls to
--   OpenAI.
-- * Stellar.Events, Stellar.Consumers, Stellar.Delivery (stellar-monitor/services/
--   event-storage.service.ts, consumer-management.service.ts, webhook-delivery.service.ts): the
--   delivery calls the other two, and keeps a queue and timers.
--
-- A method named likeThis is the definition like_this; a helper by clauses stands for a branch or a
-- loop of it. Times are numbers of milliseconds, or of seconds in Limits.Throttle. Math.random is a
-- number of units of 2 ^ -53. A promise is an Operation that is awaited, or raced against a timer; it
-- may never settle, and a run that awaits it then does not come to an end, which the outcome `diverged`
-- says. A step that fails starts itself again at most max_retries - retry_count times; that is the fuel
-- of execute_step_fuel, whose run without fuel would end as `diverged` too. The wait of startWorkflow
-- polls every 100 ms for 5000, at most 51 times, which is its fuel; other workers may write while it
-- waits. The deliveries of a batch to webhooks overlap with ticks, timeouts and further events, and in
-- Ai.Circuit so do the calls to OpenAI; the prompts of the other modules of Ai come one after the other.
--
-- Not modelled: the queries that only read, logging, the controllers, and the parts of the backend
-- that are I/O: market data, queues, the stream of Stellar events, audit and observability. The keys
-- that Redis holds under one prefix are a store of their own. A call of a repository is taken to
-- succeed, and so is a call of Redis, but for those of Limits.RateLimit, those that release the lock of
-- startWorkflow, and the reads of the cleanups of voice sessions.
pub mod Base
pub mod Repository
pub mod Auth
pub mod Workflow
pub mod Stellar
pub mod Voice
pub mod Ai
pub mod Limits
