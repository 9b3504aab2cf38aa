-- ===== src/Lib.antt =====
-- A model of the activity tracker API: an Express service that authenticates clients, limits their
-- request rate, records their API hits in batches, and answers usage statistics from a cache. What
-- a browser or a client sends comes through the middlewares; log entries go through a queue to a
-- PostgreSQL table; counts, limits and cached answers live in Redis.
--
-- The files and the code that they model, by paths from the repository's root:
--   Base: the shared names, Boolean tests, lists over native numbers, integers, maps, texts, and
--     the result of code that may throw.
--   Retry: src/utils/retry.utils.ts. An asynchronous function is a function on a state that returns
--     or throws (withRetry is with_retry); Attempts, Delays and Transient are about its runs.
--   Logs: CreateApiLogData of src/repositories/api-log.repository.ts, and
--     src/database/entities/api_log.entity.ts; Queries has the single statements of the repository.
--   Storage: src/services/in-memory-storage.service.ts.
--   Pipeline: the batching of src/repositories/api-log.repository.ts over Storage and Retry.
--     Machine cuts flushBatch and flushInMemoryLogs at their waits for the database, so that other
--     calls may come in between; flush_batch and stop_batch_processor run without such calls. A
--     retried save is one piece: while it waits it touches the table alone.
--   Http: what the middlewares see of Express, and src/common/models/serviceResponse.ts; Requests
--     has the small middlewares of src/common/middleware.
--   RateLimiter: src/services/rate-limiter.service.ts and src/middleware/rate-limit.middleware.ts.
--     Window is the specification, a sliding window that forgets nothing; Fallback is about runs of
--     calls while Redis cannot be reached.
--   Auth: src/utils/auth.utils.ts (Tokens), src/database/entities/client.entity.ts (Clients),
--     src/middleware/auth.middleware.ts (Middleware, Sound), src/middleware/sse-auth.middleware.ts
--     and the handshake of src/services/websocket.service.ts (Handshake, Agreement, Connections),
--     and the usage routes of src/api/client/clientRouter.ts (Routes).
--   Database: src/database/data-source.ts; Replicas is about the setting that names the replicas.
--   Redis: src/services/redis.service.ts: its guard, events and basic commands; Connecting has its
--     settings and `connect`, Commands and Pipelines the rest, Connection what happens when
--     connections close, and Pipelines/Many compares the pipelines with the single commands.
--   Reports: the database half of the usage statistics, in src/api/client/clientService.ts,
--     src/repositories/client.repository.ts and src/repositories/api-log.repository.ts; Counts is
--     about the rows that are read, Sort about their order.
--   Usage: their cache in src/api/client/clientService.ts, and trackAccess of
--     src/services/cache-hit-tracker.service.ts; Route is the whole of `GET /api/usage/daily` and
--     `GET /api/usage/top` in src/api/client/clientRouter.ts (Admitted).
--   Tracker: the rest of src/services/cache-hit-tracker.service.ts (Hot, Counts).
--   Prewarm: src/services/cache-prewarm.service.ts; Dispatch is about the keys that it understands,
--     Keeps about what it leaves alone.
--   Crypto: src/utils/crypto.utils.ts, its settings, encrypt and decrypt.
--   Streams: streamUsageUpdates of src/api/client/clientService.ts (Channel, Closed); Route is the
--     whole of `GET /api/usage/stream` in src/api/client/clientRouter.ts.
--   Clients: create and the queries of src/repositories/client.repository.ts, and register,
--     findByClientId and findAllActive of src/api/client/clientService.ts; Admitted is about the
--     key that a registration shows, Updates is the rest of the repository, Deactivated about whom the
--     middleware lets in after a deactivation, Handlers about src/api/client/clientController.ts.
--   Hits: logApiHit of src/api/client/clientController.ts and src/api/client/clientService.ts;
--     what is handed to Redis for publishing is an output. Route is the whole of `POST /api/logs` in
--     src/api/client/clientRouter.ts, over Auth, RateLimiter and src/common/utils/httpHandlers.ts
--     (Limit, Admitted).
--   Sockets: the rooms and broadcasts of src/services/websocket.service.ts.
--   Lifecycle: src/index.ts over Database, Redis, Prewarm and Sockets; Ready is about the startup,
--     Closed about the shutdown.
--   Tests: runs on concrete inputs, with concrete worlds.
--
-- Parameters stand for what is not in the repository: TypeORM and PostgreSQL (Database,
-- ClientTable, Queries, ClientStore, DataSource), Redis and ioredis (SortedSets, Ioredis),
-- jsonwebtoken (Jwt), bcrypt (Compare, Hasher), the ciphers of Node (Ciphers). Their laws are
-- fields of these records: a transaction inserts all or nothing, a sorted set is kept by score, a
-- stored value is read back once the replica has caught up, a query finds only what it asks for,
-- a count is printed in decimal.
-- JSON is a pair of functions; where its round trip matters, a theorem says so.
--
-- Numbers are natural where the code only counts: times are milliseconds since 1970, and
-- differences that may be negative are integers or are written with the subtrahend on the other
-- side. Subtractions that remain are guarded by the code's own tests. What parseInt gives is an
-- integer or NaN (Base/Numbers), exact as doubles are below 2^53. No recursion needs fuel but two:
-- the loop of withRetry runs on what is left of its maxRetries + 1 rounds, and a number is printed
-- in at most one digit more than its value.
--
-- Not modelled: logging, Express and Socket.IO wiring, the settings, zod schemas and OpenAPI
-- documents. Random
-- draws are arguments. A call that nobody waits for stands where it starts. Average response times
-- are kept as the decimal text that the database sends.
pub mod Base
pub mod Retry
pub mod Http
pub mod Logs
pub mod Storage
pub mod Pipeline
pub mod RateLimiter
pub mod Auth
pub mod Database
pub mod Redis
pub mod Reports
pub mod Usage
pub mod Tracker
pub mod Prewarm
pub mod Crypto
pub mod Clients
pub mod Sockets
pub mod Hits
pub mod Streams
pub mod Lifecycle
pub mod Tests
