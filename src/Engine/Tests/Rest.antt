-- ===== src/Engine/Tests/Rest.antt =====
-- Closing, the list of sessions and their buffers, at concrete inputs.
use async_tcp.Prelude.{◌≡◌, refl, true, false, List, [], ◌∷◌, some}
use async_tcp.Engine.Model.{Sys}
use async_tcp.Engine.Api.{tcp_ssl_close}
use async_tcp.Engine.Api.Close.{Copies, tcp_ssl_close-Copies}
use async_tcp.Engine.Slab.{
  IsLaidOut, layout, layout-IsLaidOut, engine_out_range, slot_range, engine_out_range-slot_range,
}
use async_tcp.Engine.Registry.{
  Entry, Registry, Answers, Op, new_client, new_server, free_pcb, run, IsCounted, run-IsCounted,
  find_ssl_pcb, tcp_ssl_free, tcp_ssl_register_pcb, tcp_ssl_free-tcp_ssl_register_pcb,
  shed_when_empty,
}
use async_tcp.Engine.Tests.{Toy, toy, toy_host, session}

abbrev closing : Sys Toy
closing = session [] ((1 ∷ 2 ∷ 3 ∷ []) ∷ [])

tcp_ssl_close-Copies_example :
    Copies toy toy_host 8 0 closing
      (tcp_ssl_close toy toy_host 8 closing).0
      (tcp_ssl_close toy toy_host 8 closing).1
tcp_ssl_close-Copies_example = tcp_ssl_close-Copies toy toy_host 8 closing

layout-IsLaidOut_test : IsLaidOut 2 1072 (layout 2 1072 true)
layout-IsLaidOut_test = layout-IsLaidOut 2 1072 true

engine_out_range-slot_range_test :
    engine_out_range 2 1072 (layout 2 1072 false) ≡ slot_range 2 1072 (layout 2 1072 false) 0
engine_out_range-slot_range_test = engine_out_range-slot_range 2 1072 false

abbrev pub answers : Answers
answers = record {
  pcb_found = true;
  slab_found = true;
  context_found = true;
  x509_given = false;
  x509_found = true;
  reset = true;
}

abbrev pub empty_registry : Registry
empty_registry = record { tcp_ssl_pcbs = []; thunk_refs = 0; sheds = 0 }

abbrev calls : List Op
calls =
    new_server answers (some 7) true 100
    ∷ new_client (λ r. r) answers (some 8) 101
    ∷ free_pcb 7
    ∷ free_pcb 9
    ∷ []

run-IsCounted_example : IsCounted (run empty_registry calls)
run-IsCounted_example =
    run-IsCounted calls empty_registry (tt, ((λ r c. c), (tt, (tt, tt)))) (record { refs = refl })

abbrev entry : Entry
entry = record { address = 100; tcp = 7; is_server = true }

tcp_ssl_free-tcp_ssl_register_pcb_test :
    (find_ssl_pcb (tcp_ssl_register_pcb empty_registry entry).tcp_ssl_pcbs 7 ≡ some entry)
    × (tcp_ssl_free (tcp_ssl_register_pcb empty_registry entry) 7
        ≡ (true, record empty_registry { sheds = shed_when_empty [] 0 }))
tcp_ssl_free-tcp_ssl_register_pcb_test = tcp_ssl_free-tcp_ssl_register_pcb empty_registry entry
