-- ===== src/Engine/Tests/Start.antt =====
-- The start of a session of ESP8266 at concrete inputs.
use async_tcp.Prelude.{ℕ, true, false, none, some, [], ◌∷◌}
use async_tcp.Engine.Registry.{Answers}
use async_tcp.Engine.Start.{
  Owner, Sessions, World, start_ssl_client, start_ssl_server, Starts, start_ssl_client-Starts,
  start_ssl_server-Starts,
}

abbrev pub all_found : Answers
all_found = record {
  pcb_found = true;
  slab_found = true;
  context_found = true;
  x509_given = false;
  x509_found = true;
  reset = true;
}

-- An owner at 60, beside a session at 40 for the pcb 3.
abbrev owner : Owner
owner = record {
  self = 60;
  pcb = 0;
  ssl = 0;
  handshake_done = false;
  deferred_host = none;
  deferred_ssl_ctx = false;
}

abbrev pub sessions : Sessions
sessions = record {
  registry = record {
    tcp_ssl_pcbs = record { address = 40; tcp = 3; is_server = true } ∷ [];
    thunk_refs = 1;
    sheds = 0;
  };
  callbacks = λ a. record { arg = 7; on_data = true; on_handshake = true; on_error = true };
}

-- The session is freed while its engine runs.
abbrev frees : World ℕ → World ℕ
frees w = record w {
  sessions = record w.sessions {
    registry = record w.sessions.registry { tcp_ssl_pcbs = sessions.registry.tcp_ssl_pcbs };
  };
}

abbrev before : World ℕ
before = record { rest = 0; owner = owner; sessions = sessions }

start_ssl_client-Starts_test :
    Starts frees 5
      (record { address = 50; tcp = 5; is_server = false })
      before
      (start_ssl_client frees all_found 50 (some 5) before)
start_ssl_client-Starts_test = start_ssl_client-Starts frees all_found 50 5 before

start_ssl_server-Starts_test :
    Starts
      (λ v. v)
      5
      (record { address = 50; tcp = 5; is_server = true })
      before
      (start_ssl_server all_found 50 (some 5) true before)
start_ssl_server-Starts_test = start_ssl_server-Starts all_found 50 5 before
