-- ===== src/Transport/Middleware/Logging.antt =====
-- internal/transport/httpserver: what is logged of a request, and that it gets an answer.
use search_engine_service.Base.{
  ℕ, ◌≡◌, ◌≢◌, ◌≤◌, ◌<◌, refl, inl, inr, List, Option, some, In, arith, nat_eq,
}
use search_engine_service.Logger.{Level, warn_level, error_level}
use search_engine_service.Transport.Handler.{Answer}
use search_engine_service.Domain.Search.{SearchResult}
use search_engine_service.Service.Search.{Json}
use search_engine_service.Transport.Dto.{Printing}
use search_engine_service.Transport.Router.{Request, Fiber, Server, serve}
use search_engine_service.Transport.Middleware.{
  Ended, answered, refused, thrown, LogEntry, Logged, request_entry, code_of, error_entry,
  error_handler, log_request, recover, finish, around,
}

abbrev pub HasLevel : Level → List LogEntry → Type 0
HasLevel level log = (e : LogEntry) × In e log × (e.level ≡ level)

-- An answer, with a line of its level for a 5xx, and for a 4xx other than 404.
abbrev pub IsLogged : {F : Type 0} → Logged (Option (Answer F)) → Type 0
IsLogged {F} (out, log) =
    (a : Answer F) × (out ≡ some a)
    × (500 ≤ a.status → HasLevel error_level log)
    × (400 ≤ a.status → a.status < 500 → a.status ≢ 404 → HasLevel warn_level log)

request_entry-error : (n : ℕ) → 500 ≤ n → (request_entry n).level ≡ error_level
unfolding request_entry
request_entry-error n h = ground arith

request_entry-warn : (n : ℕ) → 400 ≤ n → n < 500 → (request_entry n).level ≡ warn_level
unfolding request_entry
request_entry-warn n h k = ground arith

error_entry-error : (n : ℕ) → 500 ≤ n → (error_entry n).level ≡ error_level
unfolding error_entry
error_entry-error n h = ground arith

error_entry-warn : (n : ℕ) → 400 ≤ n → n < 500 → n ≢ 404 → (error_entry n).level ≡ warn_level
unfolding error_entry
error_entry-warn n h k ne = ground arith

module _ {F : Type 0} where
  around-IsLogged : (e : Ended F) → IsLogged (around e)
  unfolding around log_request recover finish error_handler
  around-IsLogged (answered a) = (
    a,
    refl,
    λ h. (_, inl refl, request_entry-error a.status h),
    λ h k ne. (_, inl refl, request_entry-warn a.status h k),
  )
  around-IsLogged (refused n e) = (
    _,
    refl,
    λ h. (_, inr (inl refl), error_entry-error (code_of e) h),
    λ h k ne. (_, inr (inl refl), error_entry-warn (code_of e) h k ne),
  )
  around-IsLogged (thrown reason) =
      (_, refl, λ h. (_, inl refl, refl), λ h k ne. absurd (ground arith))

module _ {F W : Type 0} (print : Printing) (codec : Json (SearchResult F)) (fiber : Fiber F W)
    (server : Server F W) where
  -- A request that is no probe of the health check gets one answer, whatever the route, the handlers
  -- and the middleware of other packages do, a panic included, and what is logged shows it: a status
  -- of 500 or more stands beside a line at the level of errors, and one between 400 and 499, but for
  -- 404, beside a warning.
  pub serve-IsLogged : (req : Request) (w : W) → IsLogged (serve print codec fiber server req w).0
  unfolding serve
  serve-IsLogged req w = around-IsLogged _
