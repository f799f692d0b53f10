-- ===== src/EventQueue/Tests.antt =====
-- Runs of the event queue, and its theorems at concrete inputs.
use mathlib.Core.List.{reverse}
use async_tcp.Prelude.{
  ℕ, ◌+◌, ◌≡◌, refl, ◌≢◌, false, some, List, [], ◌∷◌, inl, arith, ◌==◌, if◌then◌else◌, length, map,
}
use async_tcp.IntrusiveList.{Store, next_slot, update, remove_if}
use async_tcp.IntrusiveList.Chain.{IsList}
use async_tcp.IntrusiveList.Remove.{Removed, met}
use async_tcp.EventQueue.{
  Packet, Queue, Scheduled, poll, sent, get_async_event, coalesce, xor_shift_next, discard_limit,
  remove_events_for_client, purge,
}
use async_tcp.EventQueue.Order.{Taken, get_async_event-Taken, get_async_event-first}
use async_tcp.EventQueue.Purge.{events_of, remove_events_for_client_lem, remove_if-purge}
use async_tcp.EventQueue.Task.{
  Service, queue_back, give, turn, after_get, IsAttended, Reach-IsAttended,
}
use async_tcp.EventQueue.Task
use async_tcp.EventQueue.Wakeup.{here, next}

abbrev poll_of : ℕ → Packet
poll_of c = record { impl = c; event = poll 5 }

abbrev sent_of : ℕ → Packet
sent_of c = record { impl = c; event = sent 5 10 }

-- Two polls of client 1, an acknowledgement for 2, and one more poll of 1.
abbrev busy : Queue
busy = record { packets = poll_of 1 ∷ poll_of 1 ∷ sent_of 2 ∷ poll_of 1 ∷ []; rng = 31 }

-- The first poll is taken and the second one coalesced into it.
get_async_event_test :
    ((get_async_event 5 busy).0 ≡ some (poll_of 1))
    × ((get_async_event 5 busy).1.packets ≡ sent_of 2 ∷ poll_of 1 ∷ [])
unfolding get_async_event coalesce discard_limit xor_shift_next
get_async_event_test = (refl, refl)

get_async_event-Taken_example : Taken busy.packets (get_async_event 5 busy)
get_async_event-Taken_example = get_async_event-Taken 5 busy (omega arith)

abbrev acked : Queue
acked = record { packets = sent_of 2 ∷ poll_of 1 ∷ []; rng = 31 }

get_async_event-first_test :
    get_async_event 3 acked ≡ (some (sent_of 2), record acked { packets = poll_of 1 ∷ [] })
get_async_event-first_test = get_async_event-first 2 acked (sent_of 2) (poll_of 1 ∷ []) refl refl

remove_events_example :
    let r = remove_events_for_client 1 busy in
    (events_of 1 r.1.packets ≡ [])
    × ((c : ℕ) → c ≢ 1 → events_of c r.1.packets ≡ events_of c busy.packets)
    × (r.0 + length r.1.packets ≡ 4)
remove_events_example = remove_events_for_client_lem 1 busy

-- The packets at the nodes 10, 20 and 30.
abbrev at : ℕ → Packet
at a = if a == 20 then sent_of 2 else poll_of 1

abbrev nodes_of_queue : Store
nodes_of_queue = record {
  next = update (update (λ _. 0) 10 20) 20 30;
  head = 10;
  tail = next_slot 30;
  size = 3;
}

nodes_of_queue-IsList : IsList nodes_of_queue (10 ∷ 20 ∷ 30 ∷ [])
nodes_of_queue-IsList = record {
  chain = ground arith;
  distinct = (refl, (refl, (refl, tt)));
  tail = refl;
  size = refl;
}

remove_if-purge_test :
    (nodes : List ℕ) × Removed
      (remove_if (λ a. (at a).impl == 1) 4 nodes_of_queue)
      nodes
      (reverse (met (λ a. (at a).impl == 1) (10 ∷ 20 ∷ 30 ∷ [])))
    × (map at nodes ≡ purge 1 (map at (10 ∷ 20 ∷ 30 ∷ [])))
remove_if-purge_test =
    remove_if-purge 1 at 4 nodes_of_queue (10 ∷ 20 ∷ 30 ∷ []) nodes_of_queue-IsList (omega arith)

abbrev idle : Scheduled
idle = record { queue = record { packets = []; rng = 31 }; pending = 0 }

-- A task that has found nothing to do, while a thread has queued a packet and not notified it yet.
abbrev nothing_yet : Service
nothing_yet = record {
  queue = record { packets = []; rng = 31 };
  notified = 0;
  notifying = 0;
  waiting = false;
}

Reach-IsAttended_example : IsAttended (give 0 (queue_back (sent_of 2) (turn 1 nothing_yet).1))
unfolding give queue_back turn after_get get_async_event
Reach-IsAttended_example = Reach-IsAttended {s = nothing_yet} (inl refl) (
    Task.next
      (Task.next (Task.next Task.here (Task.take 1 refl (omega arith))) (Task.back (sent_of 2)))
      (Task.notify 0 refl))
