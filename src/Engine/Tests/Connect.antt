-- ===== src/Engine/Tests/Connect.antt =====
-- A TLS client of ESP8266 connects, at concrete inputs.
use async_tcp.Prelude.{refl, true, none, some, [], ◌∷◌}
use async_tcp.SecureClient.Tests.{transport, dialled}
use async_tcp.Engine.Tests.Start.{all_found, sessions}
use async_tcp.Engine.Connect.{
  Sys, Alloc, for_host, begin_secure, on_connected, Connects, begin_secure-on_connected,
}

abbrev found : Alloc
found = record {
  session = true;
  hooks = true;
  lookup = true;
  strdup = λ host. some host;
  self = 60;
}

abbrev unconnected : Sys
unconnected = record {
  client = record dialled { client = record dialled.client { pcb = 0 } };
  hooks = none;
  sessions = sessions;
}

begin_secure-on_connected_example :
    let t = record (begin_secure transport found (104 ∷ []) 443 unconnected).1 {
      client = dialled;
    } in
    Connects transport
      (λ w. w)
      50
      (for_host found (104 ∷ []))
      t
      (on_connected transport (λ w. w) all_found 50 t)
begin_secure-on_connected_example =
    begin_secure-on_connected transport (λ w. w) all_found found 50 443 (104 ∷ []) unconnected
      dialled refl refl refl
