-- ===== src/Lib.antt =====
-- A verification library for the search engine service.
--
-- The service collects contents (videos and articles) from two providers, keeps them in PostgreSQL
-- with a score, and answers searches over HTTP. A scheduler synchronises the providers at an
-- interval; a lock in Redis is to keep the schedulers of many instances apart. A search goes through
-- a cache in Redis.
--
-- Files, with the code that they model:
--   Base: what the code is written with. Base.Int: int and int64 with their wrap-around;
--     Base.Float: float64 as an interface; Base.Decimal: the %d of a format; Base.Effects: errors,
--     (value, error) results, and code over a world; Base.Dict: maps with text keys;
--     Base.Slices: slices that share an array.
--   Domain (internal/domain): Content (content.go), Scoring (scoring.go: CalculateScore),
--     Search (search.go: Validate, Offset, NewSearchResult), Ports (ports.go).
--   Service (internal/app/service): CacheKey and Search (search_service.go), Sync (sync_service.go).
--   Infra: Redis (internal/infra/redis/cache.go), Postgres (internal/infra/postgres: models.go,
--     repository.go, connection.go, migrations), Provider (internal/infra/provider: client.go,
--     provider_a, provider_b, registry).
--   Locker (pkg/locker): DistributedLocker and its Redis implementation.
--   Job (internal/job/sync_scheduler.go): executeSync and the scheduler's loop as functions, and in
--     Job.Lifecycle Start, Stop and run as a step relation. Job.Cooldown.Hosting puts the schedulers
--     of many instances, each with the map of its own locker, into one world; Job.Interleaving has
--     their executions call by call, in any order. The lock is taken for the scheduler's interval,
--     as in the code; README.md and docs/README.md say that its time to live is sync.timeout.
--   Transport (internal/transport/httpserver): Dto (dto), Handler (handler), Middleware (middleware
--     and the error handler of router.go), Router (router.go).
--   Validator (internal/validator/validator.go), Config (internal/config/config.go), Logger
--     (internal/logger/zap.go; its New, Sync and With are in Logger.Building).
--   App (cmd/api/main.go): the start of the program and what it puts together; App.Boot has the ways
--     in which it ends; App.Answering, App.Syncing, App.Cooldown and App.Exclusion are about
--     all parts together.
--   Mock (mock): the servers that stand in for the providers, ServerA and ServerB; Mock.Clients puts
--     the clients of Infra.Provider in front of them.
--   Tests: concrete worlds, with the theorems applied in them.
--
-- How they interact: Domain.Ports has the interfaces as records of operations. Infra fills them
-- (Infra.Postgres.Repository.as_repository, Infra.Redis.as_cache, as_provider of both clients,
-- Locker.as_locker); Service and Job take them as arguments, with contracts as named hypotheses
-- where a theorem needs them. A port's operation is a function of the world that returns its
-- answer and the next world, so the order of calls is the order of the source. App.assemble gives
-- the services the repository and the cache, and the server the services, as main does;
-- Transport.Router.serve takes a request through the middleware to its handler and back.
--
-- Bounds and loops: no loop of the model needs fuel. A goroutine of SyncAll makes at most four
-- calls, and Service.Sync runs each to its end after any schedule; the loop of the scheduler is
-- structural on the list of events that its select receives. Integers are unbounded numbers whose
-- 64-bit wrap-around is written at each operation that can leave the range; a theorem on offsets
-- asks for a page of at most 2^56, for beyond that the product of the source wraps around.
--
-- Service.Sync.Isolation compares the goroutines of SyncAll with synchronisations that run alone,
-- by a view of the world for each provider that leaves the scores out; Infra.Postgres.Paging puts
-- the pages of a search together, over a database that arranges the rows of each statement in an
-- order that it allows. Base.Frames has the rule that what every call of a computation keeps to,
-- the whole keeps to.
--
-- The scheduler's goroutine, the caller of Stop, the context and the wait group may take their
-- steps in any order: Job.Lifecycle.Step is a relation, and what is proved of it is proved of all
-- states that can be reached.
--
-- Rows: what the database keeps of a content is not what was written to the last digit.
-- Infra.Postgres.Conflicts.IsKept says what DECIMAL(10,2) and TIMESTAMP keep. The order of a search
-- may leave rows that tie; Infra.Postgres.Paging.AreOrdered is for those where it leaves none.
--
-- Parameters: GORM and its driver, Gormigrate, the Redis client, Redsync, Resty, gobreaker, Fiber,
-- Viper, zap and Sentry, go-playground's validator, the JSON and XML codecs, time parsing and
-- printing, and float64 arithmetic. What a theorem needs of them is a record of laws that states
-- their documented behaviour, and a test shows an instance that keeps it. Log lines are modelled
-- where middleware and the logger's core for Sentry write them, and left out elsewhere.
--
-- Not modelled: the files that the mock servers embed, the HTML templates, and the SQL that
-- PostgreSQL makes of a statement. Contexts appear as the errors that a call may return.
-- Base.Slices has the arrays that Go's append shares, for the fields of the logger's core; other
-- slices are lists.
pub mod Base
pub mod Domain
pub mod Service
pub mod Infra
pub mod Locker
pub mod Job
pub mod Transport
pub mod Config
pub mod Logger
pub mod Validator
pub mod App
pub mod Mock
mod Tests
