-- ===== src/SecureClient/Begin/Tests.antt =====
-- A TLS client that connects, at concrete inputs.
use async_tcp.Prelude.{ℕ, ◌≡◌, refl, true, false, Option, none, some, List, [], ◌∷◌}
use async_tcp.SecureClient.Start.{Credentials}
use async_tcp.SecureClient.Start.Tests.{lenient, fresh, fresh-IsFresh}
use async_tcp.SecureClient.Tests.{transport, dialled}
use async_tcp.SecureClient.Start.Policy.{IsCounted}
use async_tcp.SecureClient.Life.{construct, destroy, blocks, used, destroy-construct}
use async_tcp.SecureClient.Begin.{
  Session, Sys, delete_hooks, on_connected, Connects, on_connected-Connects, Begin, begins,
  begins-leaked,
}

-- No certificate and no key: the server is not verified.
abbrev insecure : Credentials
insecure = record {
  root_ca = none;
  cli_cert = none;
  cli_key = none;
  psk_ident = none;
  ps_key = none;
  password = none;
}

abbrev named : Session
named = record { deferred = (some (104 ∷ 111 ∷ []), insecure); setup = fresh }

abbrev connected : Sys
connected = record { client = dialled; hooks = some named; active_count = 1 }

on_connected-Connects_example :
    Connects lenient transport named connected (on_connected lenient transport connected)
on_connected-Connects_example =
    on_connected-Connects lenient transport named connected refl fresh-IsFresh

-- The client has lost its connection when `beginSecure` is called.
abbrev pub again : Begin lenient transport
again = record {
  before = λ s. record s { client = record s.client { pcb = 0 } };
  made = record { session = true; hooks = true; lookup = true };
  fresh = fresh;
  host = 104 ∷ [];
  port = 443;
  credentials = insecure;
}

-- After two connections and the end of the client a session is left.
begins-leaked_test :
    (delete_hooks (
      begins lenient transport
        (again ∷ again ∷ [])
        (record { client = dialled; hooks = none; active_count = 0 }))).active_count
    ≡ 1
begins-leaked_test =
    begins-leaked lenient transport again (again ∷ [])
      (record { client = dialled; hooks = none; active_count = 0 })
      (((λ s. refl), refl, refl), (((λ s. refl), refl, refl), tt))

abbrev kept : Option (List ℕ) × Credentials
kept = (some (104 ∷ []), record insecure { root_ca = some (1 ∷ []); password = some [] })

-- A root certificate, a host and a password; the session is started, and holds a chain of one
-- byte when it is deleted.
destroy-construct_example :
    let (s, live) = construct fresh.conf false 4 in
    let u = used lenient s kept true true ((7 ∷ []) ∷ []) in
    let (gone, left) = destroy (u, live) in IsCounted u.setup × (blocks gone ≡ 0) × (left ≡ 4)
destroy-construct_example =
    destroy-construct lenient fresh.conf false 4 refl refl kept true true ((7 ∷ []) ∷ [])
