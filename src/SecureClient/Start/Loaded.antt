-- ===== src/SecureClient/Start/Loaded.antt =====
-- The certificates, keys and names that `_startSSLClient` of ESP32 loads, step by step.
use async_tcp.Prelude.{
  ℕ, ◌+◌, ◌≤◌, ◌≡◌, refl, arith, Bool, true, false, Option, none, some, List, ltb, length, if_holds,
}
use async_tcp.SecureClient.Start.{
  negative, is_negative, is_success, Verify, required, not_verified, Setup, Calls, give_up,
  decode_psk, conf_psk, load_ca, skip_verification, load_trust, copied, load_key, load_cert,
  set_name,
}
use async_tcp.SecureClient.Start.Policy.{
  Built, IsCounted, trust, Shared, Ensures, negative-ne, is_success-ne, is_negative-ne,
  give_up-Stops, Pinned, IsFresh-IsCounted,
}

module _ (c : Calls) where
  load_ca-Built :
      (ca : List ℕ) (i p : Option (List ℕ)) (s : Setup)
      → Pinned s
      → Ensures (Built c (some ca) i p false false false) (load_ca c ca s)
  unfolding load_ca give_up
  load_ca-Built ca i p s q =
      let f = q.fresh in
      let t = record s {
        conf = record s.conf { authmode = required; ca_chain = true };
        have_ca_cert = true;
        ca_certs = s.ca_certs + 1;
      } in
      let v : IsCounted t = ground (
        arith, f.free.ca, f.free.cert, f.free.key, f.free.ca_chain, f.free.own_cert, f.free.flags,
      ) in
      if_holds (Ensures (Built c (some ca) i p false false false)) (is_negative (c.crt_parse ca)) _
        _ (λ e. give_up-Stops (c.crt_parse ca) t (is_negative-ne _ e) v f.idle)
        (λ e. record {
          endpoint = q.endpoint;
          only_tls12 = q.only_tls12;
          renegotiation = q.renegotiation;
          ciphersuites = q.ciphersuites;
          authmode = refl;
          shared = tt;
          ca_chain = refl;
          own_cert = f.free.own_cert;
          have_client_cert = f.free.flags.1;
          have_client_key = f.free.flags.2;
          counted = v;
          idle = f.idle;
        })

  -- A session that has no root certificate.
  plain-Built :
      (i p : Option (List ℕ)) (s : Setup) (a : Verify) (x : Option (List ℕ × List ℕ))
      → Pinned s
      → a ≡ trust {A = List ℕ} none i p
      → Shared c none i p x
      → Built c none i p false false false
          (record s { conf = record s.conf { authmode = a; psk = x } })
  plain-Built i p s a x q e h =
      let f = q.fresh in
      let v = IsFresh-IsCounted s f in
      record {
        endpoint = q.endpoint;
        only_tls12 = q.only_tls12;
        renegotiation = q.renegotiation;
        ciphersuites = q.ciphersuites;
        authmode = e;
        shared = h;
        ca_chain = f.free.ca_chain;
        own_cert = f.free.own_cert;
        have_client_cert = f.free.flags.1;
        have_client_key = f.free.flags.2;
        counted = record {
          ca = v.ca;
          cert = v.cert;
          key = v.key;
          ca_chain = v.ca_chain;
          own_cert = v.own_cert;
        };
        idle = f.idle;
      }

  conf_psk-Built :
      (i p : List ℕ) (o : Option (List ℕ)) (s : Setup)
      → decode_psk c p ≡ o
      → Pinned s
      → Ensures (Built c none (some i) (some p) false false false) (conf_psk c i o s)
  unfolding conf_psk
  conf_psk-Built i p none s e q = (negative-ne 1, q.fresh.free, q.fresh.idle)
  conf_psk-Built i p (some key) s e q =
      if_holds (Ensures (Built c none (some i) (some p) false false false))
        (is_success (c.conf_psk key i)) _ _
        (λ _.
          plain-Built (some i) (some p) s s.conf.authmode (some (key, i)) q q.authmode
            (key, e, refl))
        (λ n. (is_success-ne _ n, q.fresh.free, q.fresh.idle))

  pub load_trust-Built :
      (ca i p : Option (List ℕ)) (s : Setup)
      → Pinned s
      → Ensures (Built c ca i p false false false) (load_trust c ca i p s)
  unfolding load_trust skip_verification conf_psk
  load_trust-Built (some ca) i p s q = load_ca-Built ca i p s q
  load_trust-Built none (some i) (some p) s q = conf_psk-Built i p (decode_psk c p) s refl q
  load_trust-Built none (some i) none s q =
      plain-Built (some i) none s not_verified s.conf.psk q refl tt
  load_trust-Built none none p s q = plain-Built none p s not_verified s.conf.psk q refl tt

  module _ (ca i p : Option (List ℕ)) where
    pub load_cert-Built :
        (bytes : List ℕ) (s : Setup)
        → Built c ca i p false false false s
        → Ensures (Built c ca i p true false false) (load_cert c bytes s)
    unfolding load_cert give_up
    load_cert-Built bytes s b =
        let t = record s { have_client_cert = true; client_certs = s.client_certs + 1 } in
        let w = b.counted in
        let v : IsCounted t = ground (arith, w.ca, w.cert, w.key, w.ca_chain, b.have_client_cert) in
        if_holds (Ensures (Built c ca i p true false false)) (is_negative (c.crt_parse bytes)) _ _
          (λ e. give_up-Stops (c.crt_parse bytes) t (is_negative-ne _ e) v b.idle)
          (λ _. record {
            endpoint = b.endpoint;
            only_tls12 = b.only_tls12;
            renegotiation = b.renegotiation;
            ciphersuites = b.ciphersuites;
            authmode = b.authmode;
            shared = b.shared;
            ca_chain = b.ca_chain;
            own_cert = b.own_cert;
            have_client_cert = refl;
            have_client_key = b.have_client_key;
            counted = v;
            idle = b.idle;
          })

    pub load_key-Built :
        (bytes : List ℕ) (password : Option (List ℕ)) (s : Setup)
        → Built c ca i p true false false s
        → Ensures (Built c ca i p true true false) (load_key c bytes password s)
    unfolding load_key give_up
    load_key-Built bytes password s b =
        let pwd = copied c password in
        let t = record s {
          key_password = pwd;
          have_client_key = true;
          client_keys = s.client_keys + 1;
        } in
        let u = record t { conf = record t.conf { own_cert = true } } in
        let w = b.counted in
        let v : IsCounted t =
          ground (arith, w.ca, w.cert, w.key, w.ca_chain, b.have_client_key, b.own_cert) in
        let x : IsCounted u = ground (arith, v.ca, v.cert, v.key, v.ca_chain, b.have_client_cert) in
        if_holds (Ensures (Built c ca i p true true false))
          (is_success (c.parse_private_key bytes pwd)) _ _
          (λ _. record {
            endpoint = b.endpoint;
            only_tls12 = b.only_tls12;
            renegotiation = b.renegotiation;
            ciphersuites = b.ciphersuites;
            authmode = b.authmode;
            shared = b.shared;
            ca_chain = b.ca_chain;
            own_cert = refl;
            have_client_cert = b.have_client_cert;
            have_client_key = refl;
            counted = x;
            idle = b.idle;
          })
          (λ e. give_up-Stops (c.parse_private_key bytes pwd) t (is_success-ne _ e) v b.idle)

    module _ (cert own : Bool) where
      -- Nothing that was set depends on the name.
      named-Built :
          (s : Setup) (n : Option (List ℕ))
          → Built c ca i p cert own false s
          → Built c ca i p cert own false (record s { hostname = n })
      named-Built s n b =
          let w = b.counted in
          record {
            endpoint = b.endpoint;
            only_tls12 = b.only_tls12;
            renegotiation = b.renegotiation;
            ciphersuites = b.ciphersuites;
            authmode = b.authmode;
            shared = b.shared;
            ca_chain = b.ca_chain;
            own_cert = b.own_cert;
            have_client_cert = b.have_client_cert;
            have_client_key = b.have_client_key;
            counted = record {
              ca = w.ca;
              cert = w.cert;
              key = w.key;
              ca_chain = w.ca_chain;
              own_cert = w.own_cert;
            };
            idle = b.idle;
          }

      pub set_name-Built :
          (host : List ℕ) (s : Setup)
          → Built c ca i p cert own false s
          → Ensures
              (λ t.
                Built c ca i p cert own false t × (t.hostname ≡ some host) × (length host ≤ 253))
              (set_name c host s)
      unfolding set_name give_up
      set_name-Built host s b =
          let Q = λ (t : Setup).
            Built c ca i p cert own false t × (t.hostname ≡ some host) × (length host ≤ 253) in
          if_holds (Ensures Q) (ltb 253 (length host)) _ _
            (λ _. give_up-Stops (negative 1) s (negative-ne 1) b.counted b.idle)
            (λ short.
              if_holds (Ensures Q) (is_success (c.set_hostname host)) _ _
                (λ _. (named-Built s (some host) b, refl, ground arith))
                (λ e. give_up-Stops (c.set_hostname host) s (is_success-ne _ e) b.counted b.idle))
