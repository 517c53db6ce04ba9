-- ===== src/Mock/Recording.antt =====
-- mock: what a handler does, call by call, and the response that net/http sends of it.
use search_engine_service.Base.{
  ℕ, String, List, [], ◌∷◌, ◌++◌, Option, none, some, if◌then◌else◌, ◌==◌, string_eq,
}
use search_engine_service.Base.Effects.{plain, Eff}
use search_engine_service.Base.Dict.{lookup}
use search_engine_service.Domain.Content.{Time, Duration}
use search_engine_service.Domain.Ports.{Bytes}
use search_engine_service.Mock.{ResponseWriter, HttpRequest, Handler, Machine}

pub data Call : Type 0 where
  slept : Duration → Call
  header : String → String → Call
  status : ℕ → Call
  body : Bytes → Call
  printed : String → Call

abbrev record_call : Call → Eff (List Call) (Unit {0})
record_call c calls = (tt, calls ++ c ∷ [])

-- A connection that takes what is written, and a machine at some time.
abbrev pub writer : ResponseWriter (List Call)
writer = record {
  set_header = λ k v. record_call (header k v);
  write_header = λ n. record_call (status n);
  write = λ b calls. (none, calls ++ body b ∷ []);
}

abbrev pub machine : Time → Machine (List Call)
machine t = record {
  now = λ calls. (t, calls);
  sleep = λ d. record_call (slept d);
  print = λ s. record_call (printed s);
  listen_and_serve = λ server routes calls. (plain "closed", calls);
}

-- The status is the first that is written, or else 200; the body is all that is written.
abbrev pub status_of : List Call → ℕ
status_of [] = 200
status_of (status n ∷ calls) = n
status_of (slept d ∷ calls) = status_of calls
status_of (header k v ∷ calls) = status_of calls
status_of (body b ∷ calls) = status_of calls
status_of (printed s ∷ calls) = status_of calls

abbrev pub body_of : List Call → Bytes
body_of [] = []
body_of (body b ∷ calls) = b ++ body_of calls
body_of (slept d ∷ calls) = body_of calls
body_of (header k v ∷ calls) = body_of calls
body_of (status n ∷ calls) = body_of calls
body_of (printed s ∷ calls) = body_of calls

abbrev handled : Option (Handler (List Call)) → HttpRequest → List Call
handled none r = status 404 ∷ []
handled (some h) r = (h writer r []).1

-- The value of a header as it is sent: the last that is set before the status or the body is written.
abbrev pub header_of : String → List Call → Option String
header_of k [] = none
header_of k (status n ∷ calls) = none
header_of k (body b ∷ calls) = none
header_of k (slept d ∷ calls) = header_of k calls
header_of k (printed s ∷ calls) = header_of k calls
header_of k (header j v ∷ calls) = elim (header_of k calls) [
  | none ↦ if j == k then some v else none
  | some later ↦ some later
]

-- A GET of a path: the handler of that path, or 404.
unfoldable pub get : List (String × Handler (List Call)) → String → List Call
unfolding lookup
get routes path = handled (lookup path routes) (record { method = "GET"; path = path })
