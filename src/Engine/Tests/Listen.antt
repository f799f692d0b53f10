-- ===== src/Engine/Tests/Listen.antt =====
-- The TLS server of ESP8266 begins and ends, at concrete inputs.
use async_tcp.Prelude.{ℕ, refl, arith, true, false, none, some, List, [], ◌∷◌}
use async_tcp.Server
use async_tcp.Session.Pbes2.Tests.{toy_crypto}
use async_tcp.Session.Pem.Objects.{Gives}
use async_tcp.Session.Pem.Tests.{toy, waiting, toy-IsLawful, text}
use async_tcp.Session.ServerCtx.{ecdsa_suites}
use async_tcp.Session.ServerCtx.Tests.{ec_keys, roomy}
use async_tcp.Engine.Listen.{
  ServerHooks, Begin, Op, begins, ends, run, IsKept, Served, run-IsKept, run-Served,
}

abbrev closed : Server.Server
closed = record {
  self = 1;
  pcb = 0;
  port = 443;
  session = 0;
  connect_cb = true;
  queue = [];
  calls = [];
}

abbrev fresh : ServerHooks (List ℕ)
fresh = record { srv = closed; ssl_ctx = none; heap = 0; thunk_refs = 0 }

abbrev of_text : Begin
of_text = record {
  cert = some text;
  key = some (5 ∷ 6 ∷ []);
  password = none;
  build = roomy;
  answers = record { started = true; new_pcb = 7; bound = 0; listening = 8; refused = false };
}

-- A text without a certificate, then the right one, the end, and a second begin.
abbrev history : List Op
history =
    begins (record of_text { cert = none }) ∷ begins of_text ∷ ends false ∷ begins of_text ∷ []

run-Served_example :
    Gives
      (Served ec_keys toy_crypto toy 10 20 history)
      (run ec_keys toy_crypto toy 10 20 history fresh)
run-Served_example =
    run-Served ec_keys toy_crypto toy 10 20 waiting toy-IsLawful history fresh refl refl refl refl (
      ((omega arith, omega arith), (omega arith, omega arith)),
      (
        ((omega arith, omega arith), (omega arith, omega arith)),
        (((omega arith, omega arith), (omega arith, omega arith)), tt),
      ),
    )

-- The server was begun and ended.
abbrev ended : ServerHooks (List ℕ)
ended = record {
  srv = closed;
  ssl_ctx = some (record {
    chain_vector = (5 ∷ []) ∷ [];
    pk = some (6 ∷ []);
    suites = ecdsa_suites;
    has_cache = true;
  });
  heap = 3;
  thunk_refs = 1;
}

run-IsKept_example :
    Gives
      (IsKept ec_keys toy_crypto toy 10 20 ended)
      (run ec_keys toy_crypto toy 10 20 history ended)
run-IsKept_example = run-IsKept ec_keys toy_crypto toy 10 20 history ended _ refl
