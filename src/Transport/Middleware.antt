-- ===== src/Transport/Middleware.antt =====
-- internal/transport/httpserver/middleware, and the error handler of router.go. What a handler does to
-- a request is an `Ended`; what zap is given to log is a list of entries, in their order.
pub mod Logging
use search_engine_service.Base.{
  ℕ, String, List, [], ◌∷◌, ◌++◌, Option, none, some, Bool, true, false, if◌then◌else◌, ◌==◌,
  nat_eq, leb,
}
use search_engine_service.Base.Effects.{Error, error_text, Result, ok, err, Eff, pure, ◌>>=◌}
use search_engine_service.Infra.Postgres.Connection.{Driver}
use search_engine_service.Logger.{Level, debug_level, warn_level, error_level}
use search_engine_service.Transport.Handler.{Answer, failure}

-- A `*fiber.Error`, which has a status, or another error.
pub data HandlerError : Type 0 where
  fiber_error : ℕ → String → HandlerError
  other_error : Error → HandlerError

-- How a handler ends: with an answer; with an error, the status of the response being what it was
-- until then; or in a panic.
pub data Ended (F : Type 0) : Type 0 where
  answered : Answer F → Ended F
  refused : ℕ → HandlerError → Ended F
  thrown : String → Ended F

pub record LogEntry : Type 0 where
  pub level : Level
  pub message : String

abbrev pub Logged : Type 0 → Type 0
Logged A = A × List LogEntry

unfoldable pub request_entry : ℕ → LogEntry
request_entry status =
    if leb 500 status
    then record { level = error_level; message = "request failed" }
    else if leb 400 status
    then record { level = warn_level; message = "request error" }
    else record { level = debug_level; message = "request completed" }

module _ {F : Type 0} where
  -- `Logger`: the status that it logs is the response's, before any error is handled; a panic passes
  -- it by.
  unfoldable pub log_request : Ended F → Logged (Ended F)
  unfolding request_entry
  log_request (answered a) = (answered a, request_entry a.status ∷ [])
  log_request (refused status e) = (refused status e, request_entry status ∷ [])
  log_request (thrown reason) = (thrown reason, [])

  -- `Recover`.
  unfoldable pub recover : Logged (Ended F) → Logged (Ended F)
  recover (answered a, log) = (answered a, log)
  recover (refused status e, log) = (refused status e, log)
  recover (thrown reason, log) = (
    answered (failure 500 "internal server error" "PANIC" none),
    log ++ record { level = error_level; message = "panic recovered" } ∷ [],
  )

-- `err.Error()`.
abbrev pub text_of : HandlerError → String
text_of (fiber_error code text) = text
text_of (other_error e) = error_text e

unfoldable pub code_of : HandlerError → ℕ
code_of (fiber_error code text) = code
code_of (other_error e) = 500

unfoldable pub error_entry : ℕ → LogEntry
error_entry code =
    if code == 404
    then record { level = debug_level; message = "resource not found" }
    else if leb 500 code
    then record { level = error_level; message = "server error" }
    else if leb 400 code
    then record { level = warn_level; message = "client error" }
    else record { level = error_level; message = "unhandled error" }

unfoldable pub error_handler : {F : Type 0} → HandlerError → Logged (Answer F)
unfolding code_of error_entry
error_handler e =
    (failure (code_of e) (text_of e) "UNHANDLED_ERROR" none, error_entry (code_of e) ∷ [])

module _ {F : Type 0} where
  -- Fiber calls the error handler for an error that the last middleware returns. A panic that
  -- reaches Fiber ends the process.
  unfoldable pub finish : Logged (Ended F) → Logged (Option (Answer F))
  unfolding error_handler
  finish (answered a, log) = (some a, log)
  finish (refused status e, log) = let (a, entries) = error_handler e in (some a, log ++ entries)
  finish (thrown reason, log) = (none, log)

  -- The middleware of the program around what a handler does.
  unfoldable pub around : Ended F → Logged (Option (Answer F))
  unfolding log_request recover finish
  around e = finish (recover (log_request e))

-- `cors.Config`.
pub record CorsConfig : Type 0 where
  pub allow_origins : String
  pub allow_methods : String
  pub allow_headers : String
  pub allow_credentials : Bool
  pub max_age : ℕ

abbrev pub cors : CorsConfig
cors = record {
  allow_origins = "*";
  allow_methods = "GET,POST,PUT,DELETE,OPTIONS";
  allow_headers = "Origin,Content-Type,Accept,Authorization";
  allow_credentials = false;
  max_age = 86400;
}

-- `healthcheck.Config`.
pub record HealthCheckConfig (W : Type 0) : Type 0 where
  pub liveness_endpoint : String
  pub liveness_probe : Eff W Bool
  pub readiness_endpoint : String
  pub readiness_probe : Eff W Bool

module _ {W D P : Type 0} (driver : Driver W D P) where
  unfoldable pub ping_pool : Result P → Eff W Bool
  ping_pool (err e) = pure false
  ping_pool (ok pool) = do
    pinged ← driver.ping pool
    pure (elim pinged [ ok done ↦ true | err e ↦ false ])

  unfoldable pub ready : Option D → Eff W Bool
  unfolding ping_pool
  ready none = pure false
  ready (some db) = do found ← driver.sql_db db; ping_pool found

  unfoldable pub new_health_check : Option D → HealthCheckConfig W
  unfolding ready
  new_health_check db = record {
    liveness_endpoint = "/livez";
    liveness_probe = pure true;
    readiness_endpoint = "/readyz";
    readiness_probe = ready db;
  }
