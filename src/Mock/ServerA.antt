-- ===== src/Mock/ServerA.antt =====
-- mock/provider_a/main.go.
use search_engine_service.Base.{String, ◌<>◌, List, [], ◌∷◌, codes}
use search_engine_service.Base.Int.{pos, add64, mul64, rem64, wrap64}
use search_engine_service.Base.Effects.{error_text, Eff, pure, ◌>>=◌}
use search_engine_service.Domain.Content.{Time, Duration}
use search_engine_service.Domain.Ports.{Bytes}
use search_engine_service.Mock.{Handler, HttpServer, Machine, write_or_log}

-- `time.Duration(50+time.Now().UnixNano()%150) * time.Millisecond`.
unfoldable pub latency : Time → Duration
unfolding rem64 wrap64
latency now = mul64 (add64 (pos 50) (rem64 now (pos 150))) (pos 1_000_000)

abbrev pub server : HttpServer
server = record {
  addr = ":8081";
  read_timeout = pos 10_000_000_000;
  write_timeout = pos 10_000_000_000;
  idle_timeout = pos 120_000_000_000;
}

module _ {W : Type 0} (os : Machine W) (embedded : Bytes) where
  unfoldable pub contents : Handler W
  unfolding latency write_or_log
  contents rw r = do
    now ← os.now
    _ ← os.sleep (latency now)
    _ ← rw.set_header "Content-Type" "application/json"
    _ ← rw.set_header "X-Provider" "provider-a"
    _ ← rw.write_header 200
    _ ← write_or_log os rw "[Provider A] Write error: " embedded
    os.print ("[Provider A] " <> r.method <> " " <> r.path <> " - 200 OK")

  unfoldable pub health : Handler W
  unfolding write_or_log
  health rw r = do
    _ ← rw.write_header 200
    write_or_log os rw "[Provider A] Health write error: " (codes "{\"status\":\"healthy\"}")

  abbrev pub routes : List (String × Handler W)
  routes = ("/api/contents", contents) ∷ ("/health", health) ∷ []

  -- It returns what `log.Fatal` prints.
  unfoldable pub main : Eff W String
  unfolding contents health
  main = do
    _ ← os.print "Mock Provider A running on :8081"
    ended ← os.listen_and_serve server routes
    pure (error_text ended)
