-- ===== src/SecureClient/Start/Model.antt =====
-- The state of a TLS session of ESP32 while it is set up (src/AsyncSecureSession.h), and what
-- mbedTLS and strdup answer.
use async_tcp.Prelude.{ℕ, Bool, true, false, Option, List}

-- What a call returns: 0, a number above 0, or one below 0 by its absolute value.
pub data Ret : Type 0 where
  success : Ret
  positive : ℕ → Ret
  negative : ℕ → Ret

abbrev pub is_negative : Ret → Bool
is_negative success = false
is_negative (positive n) = false
is_negative (negative n) = true

abbrev pub is_success : Ret → Bool
is_success success = true
is_success (positive n) = false
is_success (negative n) = false

pub data Endpoint : Type 0 where
  no_endpoint is_client is_server : Endpoint

pub data Verify : Type 0 where
  by_default required not_verified : Verify

pub data Suite : Type 0 where
  ecdhe_rsa_with_aes_128_gcm_sha256 ecdhe_ecdsa_with_aes_128_gcm_sha256 : Suite

-- What the session sets in `ssl_conf`.
pub record Conf : Type 0 where
  pub endpoint : Endpoint
  pub only_tls12 : Bool
  pub renegotiation : Bool
  pub ciphersuites : List Suite
  pub authmode : Verify
  pub ca_chain : Bool
  pub own_cert : Bool
  pub psk : Option (List ℕ × List ℕ)
  pub session_cache : Bool

-- The part of `AsyncSecureSession` that is set up, and the numbers of the certificates and keys
-- of the session that were initialised and not freed.
pub record Setup : Type 0 where
  pub conf : Conf
  pub hostname : Option (List ℕ)
  pub key_password : Option (List ℕ)
  pub have_ca_cert : Bool
  pub have_client_cert : Bool
  pub have_client_key : Bool
  pub ca_certs : ℕ
  pub client_certs : ℕ
  pub client_keys : ℕ
  pub has_pcb : Bool
  pub has_bio : Bool
  pub handshake_start_time : ℕ
  pub handshake_timeout : ℕ

-- What mbedTLS and strdup answer, and MBEDTLS_PSK_MAX_LEN.
pub record Calls : Type 0 where
  pub config_defaults : Endpoint → Ret
  pub crt_parse : List ℕ → Ret
  pub parse_private_key : List ℕ → Option (List ℕ) → Ret
  pub conf_psk : List ℕ → List ℕ → Ret
  pub set_hostname : List ℕ → Ret
  pub ssl_setup : Conf → Ret
  pub strdup : List ℕ → Option (List ℕ)
  pub psk_max_len : ℕ

-- The arguments of `_startSSLClient`, with none for NULL.
pub record Credentials : Type 0 where
  pub root_ca : Option (List ℕ)
  pub cli_cert : Option (List ℕ)
  pub cli_key : Option (List ℕ)
  pub psk_ident : Option (List ℕ)
  pub ps_key : Option (List ℕ)
  pub password : Option (List ℕ)

-- The function goes on, or has returned.
pub data Step : Type 0 where
  go : Setup → Step
  stop : Ret → Setup → Step

infixl 5 ◌>>=◌
abbrev pub ◌>>=◌ : Step → (Setup → Step) → Step
go s >>= f = f s
stop r s >>= f = stop r s
