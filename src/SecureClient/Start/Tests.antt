-- ===== src/SecureClient/Start/Tests.antt =====
-- The start of a client's session at concrete inputs.
use async_tcp.Prelude.{
  ◌≡◌, refl, arith, true, false, none, some, [], ◌∷◌, length, ltb, if◌then◌else◌,
}
use async_tcp.SecureClient.Start.{
  success, negative, no_endpoint, by_default, Setup, Calls, Credentials, hex_digit, add_byte,
  psk_bytes, decode_psk, start_ssl_client,
}
use async_tcp.SecureClient.Start.Policy.{Ensures, IsFresh}
use async_tcp.SecureClient.Start.Outcome.{IsStarted, start_ssl_client-Ensures}
use async_tcp.SecureClient.Start.Psk.{hex_text, decode_psk-hex_text}

-- Calls of mbedTLS that succeed, but for a key with no bytes.
abbrev pub lenient : Calls
lenient = record {
  config_defaults = λ role. success;
  crt_parse = λ bytes. success;
  parse_private_key = λ key pwd. if ltb 0 (length key) then success else negative 15616;
  conf_psk = λ key ident. success;
  set_hostname = λ name. success;
  ssl_setup = λ conf. success;
  strdup = λ text. some text;
  psk_max_len = 32;
}

abbrev pub fresh : Setup
fresh = record {
  conf = record {
    endpoint = no_endpoint;
    only_tls12 = false;
    renegotiation = true;
    ciphersuites = [];
    authmode = by_default;
    ca_chain = false;
    own_cert = false;
    psk = none;
    session_cache = false;
  };
  hostname = none;
  key_password = none;
  have_ca_cert = false;
  have_client_cert = false;
  have_client_key = false;
  ca_certs = 0;
  client_certs = 0;
  client_keys = 0;
  has_pcb = false;
  has_bio = false;
  handshake_start_time = 0;
  handshake_timeout = 10000;
}

pub fresh-IsFresh : IsFresh fresh
fresh-IsFresh = record {
  free = record {
    ca = refl;
    cert = refl;
    key = refl;
    ca_chain = refl;
    own_cert = refl;
    flags = (refl, refl, refl);
  };
  idle = refl;
}

-- A root certificate, a certificate and a key that cannot be read.
abbrev bad_key : Credentials
bad_key = record {
  root_ca = some (1 ∷ 2 ∷ []);
  cli_cert = some (3 ∷ []);
  cli_key = some [];
  psk_ident = none;
  ps_key = none;
  password = some (4 ∷ []);
}

start_ssl_client-Ensures_example :
    Ensures
      (IsStarted lenient (97 ∷ 98 ∷ []) bad_key)
      (start_ssl_client lenient true (97 ∷ 98 ∷ []) bad_key fresh)
start_ssl_client-Ensures_example =
    start_ssl_client-Ensures lenient (97 ∷ 98 ∷ []) bad_key true fresh fresh-IsFresh

decode_psk-hex_text_example :
    decode_psk lenient (hex_text true (0 ∷ 175 ∷ 255 ∷ [])) ≡ some (0 ∷ 175 ∷ 255 ∷ [])
decode_psk-hex_text_example =
    decode_psk-hex_text lenient true (0 ∷ 175 ∷ 255 ∷ []) (omega arith) (omega arith)

-- The letter g is no digit.
decode_psk-not_hex_test : decode_psk lenient (48 ∷ 103 ∷ []) ≡ none
unfolding decode_psk psk_bytes hex_digit add_byte
decode_psk-not_hex_test = refl
