-- ===== src/SecureServer/Tests.antt =====
-- Runs of the admission of TLS connections, and its theorems at concrete inputs.
use async_tcp.Prelude.{
  ℕ, ◌+◌, ◌≤◌, ◌≡◌, refl, ◌≢◌, true, none, some, List, [], ◌∷◌, ◌++◌, arith, replicate, ◌==◌,
  if◌then◌else◌, length,
}
use async_tcp.ParkQueue.{Slot, Park, bind_client, queue_accept, park_alloc, park_loop}
use async_tcp.SecureServer.{
  queued, parked_slot, park_at, accept_tls, s_recv, s_poll, promote_slot, err_ok, log, find_parked,
}
use async_tcp.SecureServer.Invariant.{Inv}
use async_tcp.SecureServer.Admission.{
  Step, Reach, here, next, Reach-Inv, Reach-accept, Reach-bounded, accept_tls-null,
}
use async_tcp.SecureServer.Starved.{accepts, begins-starve}
use async_tcp.SecureClient.Start.Tests.{lenient}
use async_tcp.SecureClient.Tests.{transport, dialled}
use async_tcp.Client.State
use async_tcp.SecureClient.Begin
use async_tcp.SecureClient.Begin.{AreFree, begins, delete_hooks, begins-leaked}
use async_tcp.SecureClient.Begin.Tests.{again}
use async_tcp.SecureServer.Staging.{
  Waits, s_recv-fits, s_recv-gap, promote_slot-serves, accept_burst, accept_burst-serves, served,
}

abbrev free_slot : Slot
free_slot = record { pcb = 0; pb = []; pb_len = 0; parked_ms = 0 }

abbrev empty : Park
empty = record {
  pool = record { slots = λ _. free_slot; idx = 0 };
  pending = [];
  parked = 0;
  calls = [];
}

empty-Inv : Inv empty
empty-Inv = record {
  distinct = tt;
  inside = λ i h. cc;
  taken = λ i h. refl;
  counted = refl;
  idx = omega arith;
}

-- Both sessions are live: connection 70 is parked, sends two bytes, and is served when one ends.
abbrev waiting : Park
waiting = park_at 0 70 5 empty

parks_test :
    (accept_tls queued true 2 5 70 empty)
    ≡ some (err_ok, record waiting { pool = record { slots = waiting.pool.slots; idx = 1 } })
unfolding accept_tls park_alloc park_loop park_at
parks_test = refl

abbrev history : Reach empty (s_poll queued 0 9 70 (s_recv 70 ((1 ∷ []) ∷ []) empty).1).1
history = next (next here (Step.received 70 ((1 ∷ []) ∷ []))) (Step.polled queued 0 9 70)

Reach-Inv_test : Inv (s_poll queued 0 9 70 (s_recv 70 ((1 ∷ []) ∷ []) empty).1).1
Reach-Inv_test = Reach-Inv empty-Inv history

Reach-accept_example :
    accept_tls queued true 2 9 80 (s_poll queued 0 9 70 (s_recv 70 ((1 ∷ []) ∷ []) empty).1).1
    ≢ none
Reach-accept_example = Reach-accept queued true 2 9 80 empty-Inv history (omega arith)

Reach-bounded_example :
    let t = (s_poll queued 0 9 70 (s_recv 70 ((1 ∷ []) ∷ []) empty).1).1 in
    (t.parked ≡ length t.pending) × (t.parked ≤ 6)
Reach-bounded_example = Reach-bounded empty-Inv history

-- Another server has parked a connection in each slot.
abbrev crowded : Park
crowded = record empty { pool = record { slots = λ i. record free_slot { pcb = 90 + i }; idx = 0 } }

accept_tls-null_example : accept_tls queued true 2 9 70 crowded ≡ none
accept_tls-null_example =
    accept_tls-null queued 2 9 70 crowded (omega arith) (omega arith) (omega arith)
      (λ i lt e. omega arith)

-- A connection with 1999 bytes on record: one more fits, two do not.
abbrev nearly_full : List ℕ
nearly_full = replicate 1999 7

abbrev bulky : Park
bulky = record waiting {
  pool = record {
    slots = λ i.
        if i == 0
        then record (parked_slot 70 5) { pb = nearly_full ∷ []; pb_len = 1999 }
        else free_slot;
    idx = 1;
  };
}

bulky-Waits : Waits bulky 70 0
unfolding find_parked park_at
bulky-Waits = record { found = refl; measured = refl; capped = omega arith }

s_recv-gap_test :
    ((s_recv 70 ((3 ∷ []) ∷ []) (s_recv 70 ((1 ∷ 2 ∷ []) ∷ []) bulky).1).1.pool.slots 0).pb
    ≡ nearly_full ∷ (3 ∷ []) ∷ []
s_recv-gap_test =
    s_recv-gap bulky 70 0 (1 ∷ 2 ∷ []) (3 ∷ []) [] [] bulky-Waits (omega arith) (omega arith)

s_recv-fits_test :
    let t = (s_recv 70 ((3 ∷ []) ∷ []) bulky).1 in
    Waits t 70 0 × ((t.pool.slots 0).pb ≡ nearly_full ∷ (3 ∷ []) ∷ [])
s_recv-fits_test = s_recv-fits bulky 70 0 (3 ∷ []) [] bulky-Waits (omega arith)

promote_slot-serves_test :
    let r = promote_slot queued 1 bulky in
    (r.0 ≡ err_ok)
    × (r.1.pending ≡ [])
    × (r.1.calls ≡ bulky.calls ++ (bind_client 70 ∷ queue_accept 70 (nearly_full ∷ []) ∷ []))
unfolding park_at
promote_slot-serves_test = promote_slot-serves bulky 0 1 [] refl (omega arith)

accept_burst-serves_test :
    accept_burst 0 9 (70 ∷ 71 ∷ 72 ∷ []) empty ≡ some (log empty (served (70 ∷ 71 ∷ 72 ∷ [])))
accept_burst-serves_test = accept_burst-serves 0 9 (70 ∷ 71 ∷ 72 ∷ []) empty (omega arith)

-- A client has connected three times and was deleted. A connection arrives, is polled and sends
-- bytes.
abbrev looked : Park
looked = record waiting { pool = record { slots = waiting.pool.slots; idx = 1 } }

abbrev unused : Begin.Sys
unused = record { client = dialled; hooks = none; active_count = 0 }

abbrev free_once :
    ((s : State.Sys) → (again.before s).pcb ≡ 0)
    × (again.made.session ≡ true)
    × (again.made.hooks ≡ true)
free_once = ((λ s. refl), refl, refl)

abbrev thrice : AreFree lenient transport (again ∷ again ∷ again ∷ [])
thrice = (free_once, (free_once, (free_once, tt)))

leaked :
    (delete_hooks (begins lenient transport (again ∷ again ∷ again ∷ []) unused)).active_count ≡ 2
leaked = begins-leaked lenient transport again (again ∷ again ∷ []) unused thrice

begins-starve_example : accepts (s_poll queued 2 9 70 looked).1.calls ≡ 0
unfolding accept_tls park_alloc park_loop park_at
begins-starve_example =
    begins-starve lenient transport again (again ∷ again ∷ []) unused thrice (omega arith)
      {s = empty}
      (next (next here (Step.accepted queued true 2 5 70 err_ok looked (omega arith) parks_test))
        (Step.polled queued 2 9 70))
      ((tt, (refl, omega (arith, leaked))), omega (arith, leaked))
