-- ===== src/ParkQueue.antt =====
-- src/AsyncTCPParkQueue.h: the pool of slots for parked connections. A slot is known by its index
-- in `pending_pool`. A connection (`tcp_pcb *`) is an address, 0 is null; a pbuf chain is the list
-- of its buffers' payloads, [] is NULL. SSL_PARKED_SLOTS is 6, its value for ESP32.
pub mod Alloc
pub mod Unlink
mod Tests
use async_tcp.Prelude.{
  ℕ, zero, suc, ◌+◌, ◌-◌, ◌%◌, Bool, true, false, ◌||◌, ◌&&◌, not, Option, none, some, List, [],
  ◌∷◌, ◌++◌, ◌==◌, if◌then◌else◌,
}

abbrev pub parked_slots : ℕ
parked_slots = 6

-- `struct pending_pcb`, less its `next` pointer.
pub record Slot : Type 0 where
  pub pcb : ℕ
  pub pb : List (List ℕ)
  pub pb_len : ℕ
  pub parked_ms : ℕ

-- `pending_pool` and `pool_idx`.
pub record Pool : Type 0 where
  pub slots : ℕ → Slot
  pub idx : ℕ

-- The calls that parking makes into lwIP, in order. A handler is set or cleared.
pub data Call : Type 0 where
  set_arg set_recv set_err : (pcb : ℕ) (on : Bool) → Call
  set_poll : (pcb : ℕ) (on : Bool) (interval : ℕ) → Call
  tcp_abort : (pcb : ℕ) → Call
  pbuf_free : (pb : List (List ℕ)) → Call
  bind_client : (pcb : ℕ) → Call
  queue_accept : (pcb : ℕ) (staged : List (List ℕ)) → Call

-- The loop of `park_alloc`: the slot found, or NULL.
unfoldable pub park_loop : ℕ → Pool → Option ℕ × Pool
park_loop zero p = (none, p)
park_loop (suc k) p =
    let cand = p.idx in
    let q = record p { idx = (p.idx + 1) % parked_slots } in
    let rest = park_loop k q in if (p.slots cand).pcb == 0 then (some cand, q) else rest

unfoldable pub park_alloc : Pool → Option ℕ × Pool
park_alloc p = park_loop parked_slots p

abbrev pub set_slot : Pool → ℕ → Slot → Pool
set_slot p i v = record p { slots = λ j. if j == i then v else p.slots j }

-- `shed_parked_pcb`.
abbrev pub shed_parked_pcb : ℕ → List Call
shed_parked_pcb pcb =
    set_arg pcb false
    ∷ set_recv pcb false
    ∷ set_poll pcb false 0
    ∷ set_err pcb false
    ∷ tcp_abort pcb
    ∷ []

-- `if (p->pb) pbuf_free(p->pb)`
abbrev pub free_pb : List (List ℕ) → List Call
free_pb [] = []
free_pb (b ∷ bs) = pbuf_free (b ∷ bs) ∷ []

-- The queue of a server: the slots that `pending` leads through, `parked`, the pool and the calls
-- made so far.
pub record Park : Type 0 where
  pub pool : Pool
  pub pending : List ℕ
  pub parked : ℕ
  pub calls : List Call

abbrev pub release : Park → ℕ → Park
release s i = record s { pool = set_slot s.pool i (record (s.pool.slots i) { pcb = 0 }) }

-- One round of the loop of `free_queued_items` and of `abort_queued_items`.
unfoldable pub free_head : Bool → Park → ℕ → List ℕ → Park
free_head abort s i rest =
    let p = s.pool.slots i in
    record (release s i) {
      pending = rest;
      parked = s.parked - 1;
      calls =
          (s.calls ++ free_pb p.pb)
          ++ (if abort && not (p.pcb == 0) then shed_parked_pcb p.pcb else []);
    }

unfoldable pub drain_items : Bool → List ℕ → Park → Park
drain_items abort [] s = record s { pending = [] }
drain_items abort (i ∷ rest) s = drain_items abort rest (free_head abort s i rest)

unfoldable pub free_queued_items : Park → Park
free_queued_items s = drain_items false s.pending s

-- The count of the connections aborted is the length of the queue.
unfoldable pub abort_queued_items : Park → Park
abort_queued_items s = drain_items true s.pending s
