-- ===== src/Lib.antt =====
-- The backend of FarmExc: its workflow engine, and services beside it.
--
-- The engine runs workflows, which are lists of steps, with retries, and keeps a row for each workflow
-- and each step. Five services of Backend/src/workflow/services make it up. The state machine says
-- which changes of state are allowed. The idempotency service names a workflow by a hash of its input,
-- so that a start that is repeated finds the first one's row. The execution service starts, executes,
-- retries and cancels; before a run, a step or a cancellation it asks the state machine. The
-- compensation service undoes completed steps, the latest first. The recovery service looks for
-- workflows and steps that stayed running, and hands workflows back to the execution service.
--
-- Which file models what:
--   Workflow/State      workflow-state-machine.service.ts, types/workflow-state.enum.ts and
--                       types/step-state.enum.ts; State/Graph is the diagram as a relation, and
--                       walks that the table accepts
--   Workflow/Json       the values of JSON columns; Json/Text is JSON.stringify with a list of keys
--   Workflow/Entities   entities/workflow.entity.ts and entities/workflow-step.entity.ts, and the
--                       texts of errors as constructors
--   Workflow/Environment  the clock, random numbers, SHA-256 and the two repositories, as a record of
--                       operations `Env`, with what the engine relies on as the laws `IsStore`
--   Workflow/Idempotency  idempotency.service.ts
--   Workflow/Execution  executeStep, executeWithIdempotency and prepareStepInput of
--                       workflow-execution.service.ts
--   Workflow/Lifecycle  the other operations of that service
--   Workflow/Compensation  compensation.service.ts
--   Workflow/Recovery   recovery.service.ts
--   Voice               Backend/src/voice/services/conversation-state-machine.service.ts
--   Voice/Session       Backend/src/voice/services/voice-session.service.ts
--   Quota               Backend/src/ai/quota/quota.service.ts
--   Throttle            Backend/src/throttle: the guard of all routes, with bans
--   Auth/Nonce          Backend/src/auth/services/nonce.service.ts
--   Auth/RateLimit      Backend/src/auth/services/rate-limit.service.ts
--   Auth/Wallet         Backend/src/auth/services/wallet.service.ts
--   Auth/Jwt            Backend/src/auth/services/jwt-auth.service.ts: access and refresh tokens
--   Auth/ApiToken       Backend/src/auth/services/api-token.service.ts
--   Auth/Login          the handlers of Backend/src/auth/controllers/auth.controller.ts
--   Auth/Guards         two guards of Backend/src/auth/guards, and Backend/src/auth/strategies
--   Audit               Backend/src/audit: the service, the event and its listener
--   Stellar             Backend/src/stellar-monitor: types and entities; Stellar/Consumers, Stellar/Events,
--                       Stellar/Delivery and Stellar/Monitor are the four services under services/
--   Market              Backend/src/market-data: the cache; Market/Feed and Market/Invalidation are the
--                       services that use it
--   DeadLetters         the dead letters of Backend/src/queue/services/queue.service.ts
--   Voice/Llm           the pipeline of a prompt: Quota, Cache and Pipeline are quota.service.ts,
--                       llm-cache.service.ts and llm.service.ts of Backend/src/voice/services
--   Repository, Redis   what the services call of a TypeORM repository and of Redis, as records of
--                       operations and of laws, which the proofs take as parameters
--   Examples            tables in memory that satisfy the laws, and runs on them
--
-- Beside the engine: a login checks a nonce, a wallet's signature and a rate limit, and is given tokens.
-- The monitor of Stellar stores each event that Horizon streams and queues it for every active webhook
-- consumer; the deliveries of a batch run one after the other in the model, and a retry is a timer that
-- queues the same copy of the event. A prompt is checked against the quotas, looked up in the cache,
-- answered and counted.
--
-- A method of the source is the function of that name in snake case. A method with effects takes a
-- `Sys`, the world and the tables, and returns what it returns or throws together with the next one;
-- an object that it mutates is among its results. A step's own code is a function of the world that
-- returns or throws. A child module holds what is proved about its parent.
--
-- Bounds. `executeStep` calls itself after a failure while retries are left. The model runs it on fuel,
-- one more than the retries left, which is enough since each failure counts one retry. Every other loop
-- is over a list. Numbers are natural numbers; times are milliseconds of 1970 or later, and
-- Math.random() is a multiple of 2 ^ -53.
--
-- Not modelled: interleavings of concurrent calls, failures of the repositories and, but for the rate
-- limits of Auth/RateLimit, of Redis, log messages, the columns createdAt and updatedAt apart from the
-- age that recovery reads, numbers with fractions in JSON, the classes of exceptions, and a rejected
-- promise that nobody awaits. In the model no key of Redis expires by itself, and no time to live is
-- refused. A prompt is checked, looked up and recorded at one time. Statistics, pages of queries, the
-- other controllers, adapters, job queues, streaming, monitoring and the user interface are outside
-- this library.
pub mod Prelude
pub mod Repository
pub mod Redis
pub mod Workflow
pub mod Voice
pub mod Quota
pub mod Throttle
pub mod Audit
pub mod Stellar
pub mod Market
pub mod DeadLetters
pub mod Auth
pub mod Examples
