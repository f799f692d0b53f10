-- ===== src/EventQueue.antt =====
-- src/AsyncTCP.cpp: the event packets and the global queue `_async_queue` with the functions that
-- fill, empty and purge it. The queue is the list of nodes for which the intrusive list stands
-- (IntrusiveList/Push and IntrusiveList/Remove). Each function runs whole under the queue's mutex.
-- CONFIG_ASYNC_TCP_QUEUE_SIZE has its default, 64. An object is known by its address, 0 is null.
-- An `err_t` or `int8_t` error is 0 or negative: the model keeps its absolute value.
pub mod Order
pub mod Purge
pub mod Wakeup
pub mod Task
mod Tests
use Prim.Native.Nat.{bit_xor}
use async_tcp.Prelude.{
  ℕ, zero, suc, ◌+◌, ◌*◌, ◌/◌, ◌%◌, ◌^◌, Bool, true, false, ◌&&◌, Option, none, some, List, [], ◌∷◌,
  ◌++◌, ◌==◌, ltb, if◌then◌else◌, length,
}

-- `lwip_tcp_event_t` with the member of the union that goes with it. A pbuf chain is the list of
-- its buffers' lengths in `recv`; `dns` holds the answer (0 for none) and the lookup's token;
-- `accept` the facade delivered, the listener and its session.
pub data Event : Type 0 where
  sent : (pcb len : ℕ) → Event
  recv : (pcb : ℕ) (pb : List ℕ) (err : ℕ) → Event
  fin : (pcb err : ℕ) → Event
  error : (err : ℕ) → Event
  poll : (pcb : ℕ) → Event
  accept : (client server epoch : ℕ) → Event
  connected : (pcb err : ℕ) → Event
  dns : (addr token : ℕ) → Event

-- `lwip_tcp_event_packet_t`, less its `next` pointer.
pub record Packet : Type 0 where
  pub impl : ℕ
  pub event : Event

abbrev pub is_poll : Event → Bool
is_poll (poll pcb) = true
is_poll _ = false

abbrev pub queue_size : ℕ
queue_size = 64

-- `_xor_shift_next`, on uint32_t.
pub xor_shift_next : ℕ → ℕ
xor_shift_next x =
    let x1 : ℕ = bit_xor x (x * 2 ^ 13 % 2 ^ 32) in
    let x2 : ℕ = bit_xor x1 (x1 / 2 ^ 17) in bit_xor x2 (x2 * 2 ^ 5 % 2 ^ 32)

-- The queue, and `_xor_shift_state`.
pub record Queue : Type 0 where
  pub packets : List Packet
  pub rng : ℕ

-- The inner loop of `_get_async_event`: the polls of one client that follow at once are dropped.
pub coalesce : ℕ → List Packet → List Packet
coalesce impl [] = []
coalesce impl (p ∷ ps) =
    let rest = coalesce impl ps in if (p.impl == impl) && is_poll p.event then rest else p ∷ ps

-- The random length past which a poll is dropped.
pub discard_limit : ℕ → ℕ
discard_limit r = r % queue_size / 4 + queue_size * 3 / 4

-- `_get_async_event`: the packet taken, or none, and the queue left. One unit of fuel for a round.
pub get_async_event : ℕ → Queue → Option Packet × Queue
get_async_event zero q = (none, q)
get_async_event (suc k) q = elim q.packets [
  | [] ↦ (none, q)
  | e ∷ rest ↦
      let left = coalesce e.impl rest in
      let r = xor_shift_next q.rng in
      let again = get_async_event k (record { packets = left; rng = r }) in
      if is_poll e.event
      then (if ltb (discard_limit r) (length left)
          then again
          else (some e, record { packets = left; rng = r }))
      else (some e, record q { packets = rest })
]

-- `_async_queue.push_back` and `push_front`, as `_send_async_event` and `_prepend_async_event` use
-- them.
abbrev pub push_back : Queue → Packet → Queue
push_back q e = record q { packets = q.packets ++ (e ∷ []) }

abbrev pub push_front : Queue → Packet → Queue
push_front q e = record q { packets = e ∷ q.packets }

pub purge : ℕ → List Packet → List Packet
purge client [] = []
purge client (p ∷ ps) = if p.impl == client then purge client ps else p ∷ purge client ps

unfoldable pub count_for : ℕ → List Packet → ℕ
count_for client [] = 0
count_for client (p ∷ ps) =
    if p.impl == client then suc (count_for client ps) else count_for client ps

-- `_remove_events_for_client`: the number of packets freed, and the queue left.
unfoldable pub remove_events_for_client : ℕ → Queue → ℕ × Queue
remove_events_for_client client q =
    (count_for client q.packets, record q { packets = purge client q.packets })

-- The random length past which `tcp_poll` queues nothing.
pub throttle_limit : ℕ → ℕ
throttle_limit r = r % queue_size / 2 + queue_size / 4

-- ESP8266 and LibreTiny: the queue with the number of calls of `_process_async_event` that
-- `schedule_function` holds.
pub record Scheduled : Type 0 where
  pub queue : Queue
  pub pending : ℕ

-- `armed` is what `schedule_function` answers, which the code does not read; its pool can be full.
abbrev pub reschedule : Bool → Bool → Scheduled → Scheduled
reschedule armed due s = if due && armed then record s { pending = s.pending + 1 } else s

pub send_async_event : Bool → Packet → Scheduled → Scheduled
send_async_event armed e s =
    let q = push_back s.queue e in reschedule armed (length q.packets == 1) (record s { queue = q })

pub prepend_async_event : Bool → Packet → Scheduled → Scheduled
prepend_async_event armed e s =
    let q = push_front s.queue e in
    reschedule armed (length q.packets == 1) (record s { queue = q })

-- `_process_async_event`, when the scheduler has taken it off its list. `handle` is
-- `handle_async_event`, which may queue and purge packets.
pub take_and_handle : (Packet → Scheduled → Scheduled) → ℕ → Scheduled → Scheduled
take_and_handle handle fuel s =
    let (packet, q) = get_async_event fuel s.queue in
    let popped = record s { queue = q } in elim packet [ none ↦ popped | some e ↦ handle e popped ]

pub process_async_event : Bool → (Packet → Scheduled → Scheduled) → ℕ → Scheduled → Scheduled
process_async_event armed handle fuel s =
    let done = take_and_handle handle fuel s in
    reschedule armed (ltb 0 (length done.queue.packets)) done
