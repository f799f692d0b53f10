-- ===== src/SecureServer/Config/Tests.antt =====
-- A TLS server's certificate and key at concrete inputs.
use async_tcp.Prelude.{◌≡◌, inl, refl, true, false, none, some, List, [], ◌∷◌}
use async_tcp.SecureClient.Start.{success}
use async_tcp.Server
use async_tcp.SecureServer.Config.{Config, Calls, Op, begin_pem, default_cert, run}
use async_tcp.SecureServer.Config.Kept.{IsSound, run-kept, run-IsSound}

-- An mbedTLS that reads every certificate and key, and an lwIP that listens at pcb 3.
abbrev reading : Calls
reading = record {
  crt_parse = λ b. (success, b.bytes ∷ []);
  parse_private_key = λ b pwd. success;
  pcb_state = λ pcb. 1;
  answers = record { started = true; new_pcb = 2; bound = 0; listening = 3; refused = false };
}

abbrev listener : Server.Server
listener = record {
  self = 40;
  pcb = 0;
  port = 443;
  session = 0;
  connect_cb = true;
  queue = [];
  calls = [];
}

-- A server whose certificate 1 and key 2 were read.
abbrev reading_done : Config
reading_done = record {
  srv = record listener { pcb = 3 };
  use_ssl = true;
  cert = some (record { bytes = 1 ∷ []; len = 2 });
  key = some (record { bytes = 2 ∷ []; len = 2 });
  ssl_key_password = none;
  secure_ctx = record { parsed = true; cert = (1 ∷ []) ∷ []; key = some (2 ∷ []) };
}

-- The application brings a new certificate 5 and a new key 6.
abbrev renewal : List Op
renewal = begin_pem (some (5 ∷ [])) (some (6 ∷ [])) none ∷ default_cert none ∷ []

run-kept_test : (run reading renewal reading_done).secure_ctx ≡ reading_done.secure_ctx
run-kept_test = run-kept reading renewal reading_done refl

abbrev unset : Config
unset = record {
  srv = listener;
  use_ssl = false;
  cert = none;
  key = none;
  ssl_key_password = none;
  secure_ctx = record { parsed = false; cert = []; key = none };
}

run-IsSound_test : IsSound reading (run reading renewal unset)
run-IsSound_test = run-IsSound reading renewal unset (inl refl)
