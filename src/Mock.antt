-- ===== src/Mock.antt =====
-- mock: the servers that stand in for the providers during development. net/http, the clock and the
-- log are parameters; the file that a server embeds is an argument.
pub mod ServerA
pub mod ServerB
pub mod Recording
pub mod Clients
use search_engine_service.Base.{ℕ, String, ◌<>◌, List, Option, none, some}
use search_engine_service.Base.Effects.{Error, error_text, Eff, pure, ◌>>=◌}
use search_engine_service.Domain.Content.{Time, Duration}
use search_engine_service.Domain.Ports.{Bytes}

-- `http.ResponseWriter`; `set_header` is `Header().Set`.
pub record ResponseWriter (W : Type 0) : Type 0 where
  pub set_header : String → String → Eff W (Unit {0})
  pub write_header : ℕ → Eff W (Unit {0})
  pub write : Bytes → Eff W (Option Error)

-- What the handlers read of `http.Request`.
pub record HttpRequest : Type 0 where
  pub method : String
  pub path : String

-- `http.HandlerFunc`.
abbrev pub Handler : Type 0 → Type 0
Handler W = ResponseWriter W → HttpRequest → Eff W (Unit {0})

-- `http.Server`.
pub record HttpServer : Type 0 where
  pub addr : String
  pub read_timeout : Duration
  pub write_timeout : Duration
  pub idle_timeout : Duration

-- `time.Now`, `time.Sleep`, `log.Printf`, and `ListenAndServe` with what `http.HandleFunc` registers.
pub record Machine (W : Type 0) : Type 0 where
  pub now : Eff W Time
  pub sleep : Duration → Eff W (Unit {0})
  pub print : String → Eff W (Unit {0})
  pub listen_and_serve : HttpServer → List (String × Handler W) → Eff W Error

module _ {W : Type 0} (os : Machine W) where
  abbrev log_failure : String → Option Error → Eff W (Unit {0})
  log_failure text none = pure tt
  log_failure text (some e) = os.print (text <> error_text e)

  -- `if _, err := w.Write(body); err != nil { log.Printf(text, err) }`.
  unfoldable pub write_or_log : ResponseWriter W → String → Bytes → Eff W (Unit {0})
  write_or_log rw text body = do failed ← rw.write body; log_failure text failed
