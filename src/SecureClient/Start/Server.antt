-- ===== src/SecureClient/Start/Server.antt =====
-- `startSSLServer` of src/AsyncSecureSession.cpp (ESP32): the session of an accepted connection.
use async_tcp.Prelude.{◌≡◌, ◌≢◌, refl, Bool, true, false, ◌&&◌, if◌then◌else◌, if_holds}
use async_tcp.SecureClient.{handshake_timeout}
use async_tcp.SecureClient.Start.{
  Ret, success, positive, negative, is_success, is_server, not_verified, pinned_suites, Setup,
  Calls, Step, go, stop, ◌>>=◌, checked, pin,
}
use async_tcp.SecureClient.Start.Policy.{negative-ne, is_success-ne}

-- The server's certificate and key are only referred to.
unfoldable pub serve_conf : Setup → Setup
serve_conf s =
    let t = pin is_server s in
    record t {
      conf = record t.conf { authmode = not_verified; own_cert = true; session_cache = true };
    }

module _ (c : Calls) where
  unfoldable pub finish_server : Setup → Step
  finish_server s =
      let r = c.ssl_setup s.conf in
      if is_success r
      then go (record s {
        has_pcb = true;
        has_bio = true;
        handshake_start_time = 0;
        handshake_timeout = handshake_timeout;
      })
      else stop r s

  -- `parsed` is false for a null `srv` too.
  unfoldable pub start_ssl_server : (parsed pcb : Bool) → Setup → Step
  start_ssl_server parsed pcb s =
      if parsed && pcb
      then (checked (c.config_defaults is_server) s >>= λ t. finish_server (serve_conf t))
      else stop (negative 1) s

-- A session of a server that is ready for its handshake.
pub record IsServing (s : Setup) : Type 0 where
  pub endpoint : s.conf.endpoint ≡ is_server
  pub only_tls12 : s.conf.only_tls12 ≡ true
  pub renegotiation : s.conf.renegotiation ≡ false
  pub ciphersuites : s.conf.ciphersuites ≡ pinned_suites
  pub authmode : s.conf.authmode ≡ not_verified
  pub own_cert : s.conf.own_cert ≡ true
  pub session_cache : s.conf.session_cache ≡ true
  pub has_pcb : s.has_pcb ≡ true
  pub handshake_start_time : s.handshake_start_time ≡ 0

-- The certificate and the key are there, and the session serves, or it fails.
abbrev pub Serves : Bool → Step → Type 0
Serves parsed (go t) = (parsed ≡ true) × IsServing t
Serves parsed (stop r t) = r ≢ success

module _ (c : Calls) where
  finish_server-Serves : (s : Setup) → Serves true (finish_server c (serve_conf s))
  unfolding finish_server serve_conf pin
  finish_server-Serves s =
      let r = c.ssl_setup (serve_conf s).conf in
      if_holds (Serves true) (is_success r) _ _
        (λ _. (
          refl,
          record {
            endpoint = refl;
            only_tls12 = refl;
            renegotiation = refl;
            ciphersuites = refl;
            authmode = refl;
            own_cert = refl;
            session_cache = refl;
            has_pcb = refl;
            handshake_start_time = refl;
          },
        ))
        (λ e. is_success-ne r e)

  checked-Serves :
      (r : Ret) (s : Setup) → Serves true (checked r s >>= λ t. finish_server c (serve_conf t))
  unfolding checked
  checked-Serves success s = finish_server-Serves s
  checked-Serves (positive n) s = λ e. cc
  checked-Serves (negative n) s = λ e. cc

  pub start_ssl_server-Serves :
      (parsed pcb : Bool) (s : Setup) → Serves parsed (start_ssl_server c parsed pcb s)
  unfolding start_ssl_server
  start_ssl_server-Serves true true s = checked-Serves (c.config_defaults is_server) s
  start_ssl_server-Serves true false s = negative-ne 1
  start_ssl_server-Serves false pcb s = negative-ne 1
