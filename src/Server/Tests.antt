-- ===== src/Server/Tests.antt =====
-- The theorem on stale accepts at a concrete input.
use async_tcp.Prelude.{◌≡◌, arith, true, false, List, [], ◌∷◌}
use async_tcp.Server.{Server, Answers, accepted, handle_accept, abort_client, log}
use async_tcp.Server.Stale.{Change, begun, ended, changes, ends, handle_accept-stale}

abbrev listening : Server
listening = record {
  self = 400;
  pcb = 3;
  port = 443;
  session = 4294967295;
  connect_cb = true;
  queue = [];
  calls = [];
}

abbrev answers : Answers
answers = record { started = true; new_pcb = 8; bound = 0; listening = 9; refused = false }

-- The listener is ended and begun again, and the session number wraps around.
abbrev restart : List Change
restart = ended false ∷ begun answers ∷ []

handle_accept-stale_example :
    (handle_accept 50 400 4294967295 (changes restart listening)
      ≡ log (abort_client 50) (changes restart listening))
    × (handle_accept 50 400 4294967295 listening ≡ accepted 50 listening)
unfolding ends
handle_accept-stale_example =
    handle_accept-stale restart 50 listening (omega arith) (omega arith) (omega arith) (omega arith)
      (omega arith)
