-- ===== src/Engine/Tests/Admit.antt =====
-- The TLS server of ESP8266 at concrete inputs.
use async_tcp.Prelude.{◌≤◌, ◌≡◌, refl, true, false, arith, List, [], ◌∷◌}
use async_tcp.Engine.Registry.{tcp_ssl_client_count, count_servers}
use async_tcp.Engine.Admit.{Found, Server, tcp_close, serve_tls}
use async_tcp.Engine.Admit.Bounded.{Op, accepts, ends, run, live, run-live, serve_tls-delete_client}
use async_tcp.Engine.Tests.Rest.{answers, empty_registry}

abbrev idle_server : Server
idle_server = record { sessions = empty_registry; calls = [] }

abbrev all_found : Found
all_found = record {
  has_ctx = true;
  has_handler = true;
  free_heap = 20000;
  max_block = 9000;
  client = true;
  session = true;
  hooks = true;
  start = answers;
  closes = λ calls. true;
}

abbrev no_session : Found
no_session = record all_found { session = false }

abbrev history : List Op
history = accepts all_found 7 100 ∷ accepts all_found 8 101 ∷ ends 7 ∷ accepts no_session 9 102 ∷ []

run-live_example : live (run idle_server history).sessions ≤ 1
run-live_example = run-live history idle_server (omega arith)

none_yet : tcp_ssl_client_count empty_registry ≡ 0
unfolding tcp_ssl_client_count count_servers
none_yet = refl

not_served : (serve_tls no_session idle_server 9 102).0 ≡ false
unfolding serve_tls tcp_ssl_client_count count_servers
not_served = refl

serve_tls-delete_client_test :
    (serve_tls no_session idle_server 9 102).1.calls ≡ tcp_close 9 true ∷ tcp_close 9 true ∷ []
serve_tls-delete_client_test =
    serve_tls-delete_client no_session (λ calls. refl) idle_server 9 102 none_yet refl not_served
