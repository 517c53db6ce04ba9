-- ===== src/Infra/Provider.antt =====
-- internal/infra/provider: the clients of the two content providers. Resty's HTTP client and
-- gobreaker's circuit breaker are parameters; client.go says when they retry and when they trip.
pub mod ProviderA
pub mod ProviderB
pub mod Fetching
pub mod Owning
pub mod Frames
pub mod Registry
use search_engine_service.Base.{
  ℕ, ◌+◌, ◌-◌, String, ◌<>◌, List, [], ◌∷◌, Bool, true, false, ◌&&◌, ltb, leb, if◌then◌else◌,
  Option, some, none,
}
use search_engine_service.Base.Int.{ℤ, pos, negsuc}
use search_engine_service.Base.Float.{Float}
use search_engine_service.Base.Decimal.{format_ℕ}
use search_engine_service.Base.Effects.{Error, plain, Result, ok, err, Eff, pure, ◌>>=◌}
use search_engine_service.Domain.Content.{Content, Time, Duration}
use search_engine_service.Domain.Scoring.{calculate_score}
use search_engine_service.Domain.Ports.{Bytes}

pub record RetryConfig : Type 0 where
  pub max_attempts : ℤ
  pub wait_time : Duration
  pub max_wait_time : Duration

pub record CbConfig (F : Type 0) : Type 0 where
  pub max_requests : ℕ
  pub interval : Duration
  pub timeout : Duration
  pub failure_ratio : F

pub record ClientConfig (F : Type 0) : Type 0 where
  pub base_url : String
  pub timeout : Duration
  pub retry : RetryConfig
  pub cb : CbConfig F

-- A response of Resty, with the body decoded into `A` where the request asks for that.
pub record HttpResponse (A : Type 0) : Type 0 where
  pub status_code : ℕ
  pub result : A
  pub body : Bytes

-- `IsError` of a response: the status is above 399.
abbrev pub is_error : {A : Type 0} → HttpResponse A → Bool
is_error r = ltb 399 r.status_code

-- The condition of `AddRetryCondition`: a network error, or a status from 500 on.
unfoldable pub should_retry : {A : Type 0} → Result (HttpResponse A) → Bool
should_retry (err e) = true
should_retry (ok r) = leb 500 r.status_code

-- What the Resty client of a provider is set to.
pub record RestySettings (A : Type 0) : Type 0 where
  pub base_url : String
  pub timeout : Duration
  pub retry_count : ℤ
  pub retry_wait_time : Duration
  pub retry_max_wait_time : Duration
  pub retry_condition : Result (HttpResponse A) → Bool

unfoldable pub new_resty_client : {F A : Type 0} → ClientConfig F → RestySettings A
unfolding should_retry
new_resty_client cfg = record {
  base_url = cfg.base_url;
  timeout = cfg.timeout;
  retry_count = cfg.retry.max_attempts;
  retry_wait_time = cfg.retry.wait_time;
  retry_max_wait_time = cfg.retry.max_wait_time;
  retry_condition = should_retry;
}

-- `gobreaker.Counts`, as far as `ReadyToTrip` reads it.
pub record Counts : Type 0 where
  pub requests : ℕ
  pub total_failures : ℕ

unfoldable pub ready_to_trip : {F : Type 0} ⦃f : Float F⦄ → CbConfig F → Counts → Bool
ready_to_trip ⦃f⦄ cfg counts =
    let failure_ratio =
      f.div (f.of_int (pos counts.total_failures)) (f.of_int (pos counts.requests)) in
    leb 3 counts.requests && f.le cfg.failure_ratio failure_ratio

-- `gobreaker.Settings`; `OnStateChange` does nothing.
pub record BreakerSettings : Type 0 where
  pub name : String
  pub max_requests : ℕ
  pub interval : Duration
  pub timeout : Duration
  pub ready_to_trip : Counts → Bool

unfoldable pub new_circuit_breaker :
    {F : Type 0} ⦃f : Float F⦄ → String → CbConfig F → BreakerSettings
unfolding ready_to_trip
new_circuit_breaker name cfg = record {
  name = name;
  max_requests = cfg.max_requests;
  interval = cfg.interval;
  timeout = cfg.timeout;
  ready_to_trip = ready_to_trip cfg;
}

-- What a client is made of: the requests of its HTTP client (with their retries), its circuit
-- breaker, `time.Now` and `time.Parse`.
pub record Backend (W A : Type 0) : Type 0 where
  pub get : String → Eff W (Result (HttpResponse A))
  pub execute : Eff W (Result (HttpResponse A)) → Eff W (Result (HttpResponse A))
  pub now : Eff W Time
  pub parse_time : String → String → Result Time

-- The zero time, which `time.Parse` returns beside an error: the first of January of the year 1.
abbrev pub zero_time : Time
zero_time = negsuc (62_135_596_800_000_000_000 - 1)

-- `t, _ := time.Parse(layout, text)`.
abbrev pub time_or_zero : Result Time → Time
time_or_zero (ok t) = t
time_or_zero (err e) = zero_time

-- The function that the circuit breaker executes: an error status is an error.
unfoldable pub check_status :
    {A : Type 0} → String → Result (HttpResponse A) → Result (HttpResponse A)
check_status name (err e) = err e
check_status name (ok r) =
    if is_error r then err (plain (name <> " returned status " <> format_ℕ r.status_code)) else ok r

unfoldable pub request :
    {W A : Type 0} → Backend W A → String → String → Eff W (Result (HttpResponse A))
unfolding check_status
request b name endpoint = do r ← b.get endpoint; pure (check_status name r)

-- `HealthCheck` of either client.
unfoldable pub health_status : {A : Type 0} → Result (HttpResponse A) → Result (Unit {0})
health_status (err e) = err e
health_status (ok r) =
    if is_error r
    then err (plain ("health check returned status " <> format_ℕ r.status_code))
    else ok tt

unfoldable pub health_check : {W A : Type 0} → Backend W A → Eff W (Result (Unit {0}))
unfolding health_status
health_check b = do r ← b.get "/health"; pure (health_status r)

-- The loop over the items: each content gets its score.
unfoldable pub score_all :
    {F W : Type 0} ⦃f : Float F⦄ → Eff W Time → List (Content F) → Eff W (List (Content F))
score_all now [] = pure []
score_all now (c ∷ cs) = do
  t ← now
  rest ← score_all now cs
  pure (record c { score = calculate_score t (some c) } ∷ rest)
