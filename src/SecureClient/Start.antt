-- ===== src/SecureClient/Start.antt =====
-- How a TLS session of ESP32 is built: `_startSSLClient`, `startClient`, `setClientCredentials`,
-- `startSSLServer` and `_deleteHandshakeCerts` of src/AsyncSecureSession.cpp. The calls of mbedTLS
-- and strdup are parameters. A text is the list of its bytes.
mod Model
pub mod Psk
pub mod Policy
pub mod Loaded
pub mod Outcome
pub mod Server
pub mod Tests
pub use Model.*
use Prim.Native.Nat.{bit_or}
use async_tcp.Prelude.{
  ℕ, ◌+◌, ◌-◌, ◌*◌, ◌%◌, Bool, true, false, not, ◌&&◌, ◌||◌, Option, none, some, List, [], ◌∷◌,
  ◌==◌, ltb, leb, if◌then◌else◌, length,
}

unfoldable pub delete_ca : Setup → Setup
delete_ca s =
    if s.have_ca_cert
    then (record s {
      conf = record s.conf { ca_chain = false };
      ca_certs = s.ca_certs - 1;
      have_ca_cert = false;
    })
    else s

unfoldable pub delete_cert : Setup → Setup
delete_cert s =
    if s.have_client_cert
    then (record s {
      conf = record s.conf { own_cert = false };
      client_certs = s.client_certs - 1;
      have_client_cert = false;
    })
    else s

unfoldable pub delete_key : Setup → Setup
delete_key s =
    if s.have_client_key
    then (record s { client_keys = s.client_keys - 1; have_client_key = false })
    else s

unfoldable pub delete_handshake_certs : Setup → Setup
delete_handshake_certs s = delete_key (delete_cert (delete_ca s))

-- `_deleteHandshakeCerts(); return ret;`
unfoldable pub give_up : Ret → Setup → Step
give_up r s = stop r (delete_handshake_certs s)

-- `if (ret != 0) return ret;`
unfoldable pub checked : Ret → Setup → Step
checked r s = if is_success r then go s else stop r s

unfoldable pub pinned_suites : List Suite
pinned_suites = ecdhe_rsa_with_aes_128_gcm_sha256 ∷ ecdhe_ecdsa_with_aes_128_gcm_sha256 ∷ []

-- The defaults of mbedTLS, and the versions, the renegotiation and the cipher suites of both roles.
unfoldable pub pin : Endpoint → Setup → Setup
pin role s = record s {
  conf = record s.conf {
    endpoint = role;
    only_tls12 = true;
    renegotiation = false;
    ciphersuites = pinned_suites;
    authmode = by_default;
  };
}

-- A character of the key, as `c - '0'`, `c - ('A' - 10)` or `c - ('a' - 10)`.
unfoldable pub hex_digit : ℕ → Option ℕ
hex_digit c =
    if leb b'0' c && leb c b'9'
    then some (c - b'0')
    else (if leb b'A' c && leb c b'F'
        then some (c - (b'A' - 10))
        else (if leb b'a' c && leb c b'f' then some (c - (b'a' - 10)) else none))

unfoldable pub add_byte : Option ℕ → Option ℕ → Option (List ℕ) → Option (List ℕ)
add_byte (some h) (some l) (some bytes) = some (bit_or (h * 16 % 256) l ∷ bytes)
add_byte (some h) (some l) none = none
add_byte (some h) none bytes = none
add_byte none l bytes = none

-- The loop over the pairs of characters.
unfoldable pub psk_bytes : List ℕ → Option (List ℕ)
psk_bytes [] = some []
psk_bytes (c ∷ []) = none
psk_bytes (c ∷ d ∷ rest) = add_byte (hex_digit c) (hex_digit d) (psk_bytes rest)

unfoldable pub or_empty : Option (List ℕ) → List ℕ
or_empty none = []
or_empty (some host) = host

-- `startSSLClientInsecure` without a root certificate, else `startSSLClient`.
unfoldable pub chosen : Credentials → Credentials
chosen k = elim k.root_ca [
  | none ↦ record {
    root_ca = none;
    cli_cert = none;
    cli_key = none;
    psk_ident = none;
    ps_key = none;
    password = none;
  }
  | some ca ↦ record k { psk_ident = none; ps_key = none }
]

module _ (c : Calls) where
  -- The key, unless its length is odd or too large.
  unfoldable pub decode_psk : List ℕ → Option (List ℕ)
  decode_psk key =
      if not (length key % 2 == 0) || ltb (2 * c.psk_max_len) (length key)
      then none
      else psk_bytes key

  unfoldable pub conf_psk : List ℕ → Option (List ℕ) → Setup → Step
  conf_psk ident none s = stop (negative 1) s
  conf_psk ident (some key) s =
      let r = c.conf_psk key ident in
      if is_success r
      then go (record s { conf = record s.conf { psk = some (key, ident) } })
      else stop r s

  unfoldable pub load_ca : List ℕ → Setup → Step
  load_ca bytes s =
      let r = c.crt_parse bytes in
      let t = record s {
        conf = record s.conf { authmode = required; ca_chain = true };
        have_ca_cert = true;
        ca_certs = s.ca_certs + 1;
      } in
      if is_negative r then give_up r t else go t

  unfoldable pub skip_verification : Setup → Step
  skip_verification s = go (record s { conf = record s.conf { authmode = not_verified } })

  -- The root certificate, or a pre-shared key, or neither.
  unfoldable pub load_trust : (root_ca psk_ident ps_key : Option (List ℕ)) → Setup → Step
  load_trust (some ca) ident key s = load_ca ca s
  load_trust none (some ident) (some key) s = conf_psk ident (decode_psk key) s
  load_trust none (some ident) none s = skip_verification s
  load_trust none none key s = skip_verification s

  unfoldable pub copied : Option (List ℕ) → Option (List ℕ)
  copied none = none
  copied (some text) = c.strdup text

  unfoldable pub load_key : List ℕ → Option (List ℕ) → Setup → Step
  load_key key password s =
      let pwd = copied password in
      let r = c.parse_private_key key pwd in
      let t = record s {
        key_password = pwd;
        have_client_key = true;
        client_keys = s.client_keys + 1;
      } in
      if is_success r
      then go (record t { conf = record t.conf { own_cert = true } })
      else give_up r t

  unfoldable pub load_cert : List ℕ → Setup → Step
  load_cert cert s =
      let r = c.crt_parse cert in
      let t = record s { have_client_cert = true; client_certs = s.client_certs + 1 } in
      if is_negative r then give_up r t else go t

  -- The client's own certificate, which is read only with a root certificate.
  unfoldable pub load_own : (root_ca cert key password : Option (List ℕ)) → Setup → Step
  load_own (some ca) (some cert) (some key) password s =
      load_cert cert s >>= λ t. load_key key password t
  load_own (some ca) (some cert) none password s = go s
  load_own (some ca) none key password s = go s
  load_own none cert key password s = go s

  unfoldable pub set_name : List ℕ → Setup → Step
  set_name host s =
      let r = c.set_hostname host in
      if ltb 253 (length host)
      then give_up (negative 1) s
      else (if is_success r then go (record s { hostname = some host }) else give_up r s)

  unfoldable pub finish : Setup → Step
  finish s =
      let r = c.ssl_setup s.conf in
      if is_success r
      then go (record s { has_pcb = true; has_bio = true; handshake_start_time = 0 })
      else give_up r s

  -- `_startSSLClient`, with a host that is not null.
  unfoldable pub start_ssl_client : Bool → List ℕ → Credentials → Setup → Step
  start_ssl_client pcb host k s =
      if pcb
      then (checked (c.config_defaults is_client) s >>= λ t.
          load_trust k.root_ca k.psk_ident k.ps_key (pin is_client t) >>= λ t.
          load_own k.root_ca k.cli_cert k.cli_key k.password t >>= λ t.
          set_name host t >>= λ t. finish t)
      else stop (negative 1) s

  -- `setClientCredentials`: copies of the host and of the password, and the rest as it is.
  unfoldable pub set_client_credentials :
      Option (List ℕ) → Credentials → Option (List ℕ) × Credentials
  set_client_credentials host k = (copied host, record k { password = copied k.password })

  -- `startClient`, from what `setClientCredentials` kept.
  unfoldable pub start_client : Bool → Option (List ℕ) × Credentials → Setup → Step
  start_client pcb (host, k) s = start_ssl_client pcb (or_empty host) (chosen k) s
