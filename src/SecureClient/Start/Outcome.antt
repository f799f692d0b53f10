-- ===== src/SecureClient/Start/Outcome.antt =====
-- The session of a client after `_startSSLClient` on ESP32, on every branch.
use async_tcp.Prelude.{
  ℕ, ◌≤◌, ◌≡◌, refl, Bool, true, false, Option, none, some, List, length, if_holds,
}
use async_tcp.SecureClient.Start.{
  Setup, Calls, Credentials, is_success, is_client, give_up, checked, pin, load_trust, load_key,
  load_cert, load_own, set_name, finish, start_ssl_client,
}
use async_tcp.SecureClient.Start.Policy.{
  shows, Built, Ensures, Ensures-bind, IsFresh, give_up-Stops, negative-ne, is_success-ne,
  checked-Pinned, pin-Pinned,
}
use async_tcp.SecureClient.Start.Loaded.{
  load_trust-Built, load_cert-Built, load_key-Built, set_name-Built,
}

-- A session that is ready for its handshake.
pub record IsStarted (c : Calls) (host : List ℕ) (k : Credentials) (s : Setup) : Type 0 where
  pub built :
      Built c k.root_ca k.psk_ident k.ps_key
        (shows k.root_ca k.cli_cert k.cli_key)
        (shows k.root_ca k.cli_cert k.cli_key)
        true
        s
  pub hostname : s.hostname ≡ some host
  pub short : length host ≤ 253
  pub has_bio : s.has_bio ≡ true
  pub handshake_start_time : s.handshake_start_time ≡ 0

module _ (c : Calls) where
  load_own-Built :
      (ca i p cert key password : Option (List ℕ)) (s : Setup)
      → Built c ca i p false false false s
      → Ensures
          (Built c ca i p (shows ca cert key) (shows ca cert key) false)
          (load_own c ca cert key password s)
  unfolding load_own
  load_own-Built (some ca) i p (some cert) (some key) password s b =
      Ensures-bind (Built c (some ca) i p true false false) (Built c (some ca) i p true true false)
        (load_cert c cert s) (λ t. load_key c key password t)
        (load_cert-Built c (some ca) i p cert s b)
        (λ t. load_key-Built c (some ca) i p key password t)
  load_own-Built (some ca) i p (some cert) none password s b = b
  load_own-Built (some ca) i p none key password s b = b
  load_own-Built none i p cert key password s b = b

  module _ (host : List ℕ) (k : Credentials) where
    finish-IsStarted :
        (s : Setup)
        → (Built c k.root_ca k.psk_ident k.ps_key
              (shows k.root_ca k.cli_cert k.cli_key)
              (shows k.root_ca k.cli_cert k.cli_key)
              false
              s
            × (s.hostname ≡ some host)
            × (length host ≤ 253))
        → Ensures (IsStarted c host k) (finish c s)
    unfolding finish give_up
    finish-IsStarted s (b, e, n) =
        let w = b.counted in
        if_holds (Ensures (IsStarted c host k)) (is_success (c.ssl_setup s.conf)) _ _
          (λ _. record {
            built = record {
              endpoint = b.endpoint;
              only_tls12 = b.only_tls12;
              renegotiation = b.renegotiation;
              ciphersuites = b.ciphersuites;
              authmode = b.authmode;
              shared = b.shared;
              ca_chain = b.ca_chain;
              own_cert = b.own_cert;
              have_client_cert = b.have_client_cert;
              have_client_key = b.have_client_key;
              counted = record {
                ca = w.ca;
                cert = w.cert;
                key = w.key;
                ca_chain = w.ca_chain;
                own_cert = w.own_cert;
              };
              idle = refl;
            };
            hostname = e;
            short = n;
            has_bio = refl;
            handshake_start_time = refl;
          })
          (λ e. give_up-Stops (c.ssl_setup s.conf) s (is_success-ne _ e) b.counted b.idle)

    -- For a session of ESP32 that was made and not started, `_startSSLClient` with a host that is
    -- not null either fails, and then no certificate or key is left to free, the configuration
    -- refers to none, and no pcb was taken; or the session is ready, on TLS 1.2 with the two
    -- pinned suites and no renegotiation, with the host as its name, of at most 253 bytes, and the
    -- time of the handshake's start reset. Then the server's certificate is checked where a root
    -- certificate is given, else the key that a pre-shared key's text stands for is set where it
    -- and its identity are given, else the server is not verified; and the client's certificate
    -- and key are loaded and used just when both are given with a root certificate.
    pub start_ssl_client-Ensures :
        (pcb : Bool) (s : Setup)
        → IsFresh s
        → Ensures (IsStarted c host k) (start_ssl_client c pcb host k s)
    unfolding start_ssl_client
    start_ssl_client-Ensures false s f = (negative-ne 1, f.free, f.idle)
    start_ssl_client-Ensures true s f =
        let own = shows k.root_ca k.cli_cert k.cli_key in
        let ready = IsStarted c host k in
        Ensures-bind IsFresh ready (checked (c.config_defaults is_client) s) _
          (checked-Pinned (c.config_defaults is_client) s f)
          (λ t g.
            Ensures-bind (Built c k.root_ca k.psk_ident k.ps_key false false false) ready
              (load_trust c k.root_ca k.psk_ident k.ps_key (pin is_client t)) _
              (load_trust-Built c k.root_ca k.psk_ident k.ps_key (pin is_client t) (pin-Pinned t g))
              (λ u b.
                Ensures-bind (Built c k.root_ca k.psk_ident k.ps_key own own false) ready
                  (load_own c k.root_ca k.cli_cert k.cli_key k.password u) _
                  (load_own-Built k.root_ca k.psk_ident k.ps_key k.cli_cert k.cli_key k.password u
                    b)
                  (λ v d.
                    Ensures-bind _ ready (set_name c host v) (λ w. finish c w)
                      (set_name-Built c k.root_ca k.psk_ident k.ps_key own own host v d)
                      finish-IsStarted)))
