-- ===== src/SecureServer/Accepted/Tests.antt =====
-- An accepted client at a concrete input.
use async_tcp.Prelude.{true, false, none, some, [], ◌∷◌}
use async_tcp.SecureClient.Start
use async_tcp.SecureClient.Start.{Setup, success, no_endpoint, by_default}
use async_tcp.SecureServer.Config.{Config}
use async_tcp.SecureServer.Accepted.{Accepting, Outcome, accepted_tls, accepted_tls-Outcome}

abbrev lenient : Start.Calls
lenient = record {
  config_defaults = λ role. success;
  crt_parse = λ bytes. success;
  parse_private_key = λ key pwd. success;
  conf_psk = λ key ident. success;
  set_hostname = λ name. success;
  ssl_setup = λ conf. success;
  strdup = λ text. some text;
  psk_max_len = 32;
}

abbrev fresh : Setup
fresh = record {
  conf = record {
    endpoint = no_endpoint;
    only_tls12 = false;
    renegotiation = true;
    ciphersuites = [];
    authmode = by_default;
    ca_chain = false;
    own_cert = false;
    psk = none;
    session_cache = false;
  };
  hostname = none;
  key_password = none;
  have_ca_cert = false;
  have_client_cert = false;
  have_client_key = false;
  ca_certs = 0;
  client_certs = 0;
  client_keys = 0;
  has_pcb = false;
  has_bio = false;
  handshake_start_time = 0;
  handshake_timeout = 10000;
}

abbrev configured : Config
configured = record {
  srv = record {
    self = 40;
    pcb = 3;
    port = 443;
    session = 1;
    connect_cb = true;
    queue = [];
    calls = [];
  };
  use_ssl = true;
  cert = some (record { bytes = 1 ∷ []; len = 2 });
  key = some (record { bytes = 2 ∷ []; len = 2 });
  ssl_key_password = none;
  secure_ctx = record { parsed = true; cert = (1 ∷ []) ∷ []; key = some (2 ∷ []) };
}

-- A client that sent 2 bytes while it was parked.
abbrev parked : Accepting
parked = record { client = true; pcb = true; staged = (22 ∷ 3 ∷ []) ∷ []; hooks = none; calls = [] }

accepted_tls-Outcome_example :
    Outcome lenient
      (record { free_heap = 120000; session = true; hooks = true })
      fresh
      configured
      parked
      (accepted_tls lenient
        (record { free_heap = 120000; session = true; hooks = true })
        fresh
        configured
        parked)
accepted_tls-Outcome_example =
    accepted_tls-Outcome lenient (record { free_heap = 120000; session = true; hooks = true }) fresh
      configured parked
