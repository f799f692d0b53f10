-- ===== src/SecureServer.antt =====
-- src/AsyncSecureServer.cpp, the ESP32 part: SecureServerHooks admits an accepted connection,
-- parks it while all TLS sessions are taken, and serves it when one ends. The callbacks run with
-- the lwIP core lock held, so each function below is one step. The `pending` chain is the list of
-- its slots (ParkQueue/Unlink has `unlink_pending` on the pointers).
pub mod Invariant
pub mod Admission
pub mod Staging
pub mod Config
pub mod Accepted
pub mod Starved
mod Tests
use async_tcp.Prelude.{
  ℕ, zero, suc, ◌+◌, ◌-◌, ◌%◌, ◌^◌, Bool, true, false, ◌||◌, ◌&&◌, not, Option, none, some, List,
  [], ◌∷◌, ◌++◌, ◌==◌, ltb, leb, if◌then◌else◌, length,
}
use async_tcp.ParkQueue.{
  Slot, Pool, Park, Call, set_arg, set_recv, set_err, set_poll, tcp_abort, pbuf_free, bind_client,
  queue_accept, park_alloc, set_slot, shed_parked_pcb, free_pb, release, free_queued_items,
  parked_slots,
}
use async_tcp.ParkQueue.Unlink.{unlink}

-- SSL_MAX_CONNECTIONS, SSL_QUEUE_IDLE_MS and SSL_PARKED_RX_CAP.
abbrev pub ssl_max_connections : ℕ
ssl_max_connections = 2

abbrev pub ssl_queue_idle_ms : ℕ
ssl_queue_idle_ms = 20000

abbrev pub ssl_parked_rx_cap : ℕ
ssl_parked_rx_cap = 2000

-- ERR_OK, and the absolute value of ERR_ABRT (-13 in lwIP).
abbrev pub err_ok : ℕ
err_ok = 0

abbrev pub err_abrt : ℕ
err_abrt = 13

-- How the allocations of `_serveTls` turn out.
pub data Outcome : Type 0 where
  queued no_event no_pcb no_client : Outcome

abbrev pub log : Park → List Call → Park
log s cs = record s { calls = s.calls ++ cs }

-- The error code and the state.
pub serve_tls : Outcome → ℕ → List (List ℕ) → Park → ℕ × Park
serve_tls queued pcb staged s = (err_ok, log s (bind_client pcb ∷ queue_accept pcb staged ∷ []))
serve_tls no_event pcb staged s = (err_abrt, log s (bind_client pcb ∷ tcp_abort pcb ∷ []))
serve_tls no_pcb pcb staged s = (err_abrt, s)
serve_tls no_client pcb staged s = (err_abrt, log s (tcp_abort pcb ∷ []))

abbrev pub parked_slot : ℕ → ℕ → Slot
parked_slot pcb now = record { pcb = pcb; pb = []; pb_len = 0; parked_ms = now }

-- The connection goes to the end of the queue.
pub park_at : ℕ → ℕ → ℕ → Park → Park
park_at i pcb now s = record s {
  pool = set_slot s.pool i (parked_slot pcb now);
  pending = s.pending ++ i ∷ [];
  parked = s.parked + 1;
  calls =
      s.calls
      ++ (set_arg pcb true ∷ set_poll pcb true 4 ∷ set_recv pcb true ∷ set_err pcb true ∷ []);
}

-- `_acceptTls`. `ready` is `_use_ssl && _cert && _key`, `live` is `liveServeCount()`. The result is
-- `none` where the code writes through a null slot.
pub accept_tls : Outcome → Bool → ℕ → ℕ → ℕ → Park → Option (ℕ × Park)
accept_tls o ready live now pcb s =
    if not ready
    then some (serve_tls o pcb [] s)
    else (if leb ssl_max_connections live
        then (if ltb s.parked parked_slots
            then (elim (park_alloc s.pool).0 [
              | none ↦ none
              | some i ↦
                  some (err_ok, park_at i pcb now (record s { pool = (park_alloc s.pool).1 }))
            ])
            else some (err_abrt, log s (tcp_abort pcb ∷ [])))
        else some (serve_tls o pcb [] s))

-- The slot of the queue that holds `pcb`.
pub find_parked : Pool → ℕ → List ℕ → Option ℕ
find_parked pool pcb [] = none
find_parked pool pcb (i ∷ rest) =
    if (pool.slots i).pcb == pcb then some i else find_parked pool pcb rest

-- What shedding a queued connection does to the queue and its slot.
pub dequeue : ℕ → Park → Park
dequeue i s = record (release s i) { pending = unlink i s.pending; parked = s.parked - 1 }

pub shed : ℕ → ℕ → Park → Park
shed i pcb s = log (dequeue i s) (free_pb (s.pool.slots i).pb ++ shed_parked_pcb pcb)

abbrev clear_slot : Park → ℕ → Park
clear_slot s i = record s {
  pool = set_slot s.pool i (record (s.pool.slots i) { pcb = 0; pb = [] });
}

-- tcp_abort of a pcb whose handlers are still those of the queue calls `_s_error`.
unfoldable pub abort_served : Outcome → Park → Park
abort_served no_client s = free_queued_items s
abort_served queued s = s
abort_served no_event s = s
abort_served no_pcb s = s

-- The call of `_serveTls` in `_promoteSlot`, and what follows it.
pub serve_staged : Outcome → ℕ → List (List ℕ) → Park → ℕ × Park
serve_staged o pcb staged s =
    let (r, t) = serve_tls o pcb staged s in
    let u = abort_served o t in (r, if r == err_ok then u else log u (free_pb staged))

pub promote_from : Outcome → ℕ → List ℕ → Park → ℕ × Park
promote_from o live [] s = (err_ok, s)
promote_from o live (i ∷ rest) s =
    let p = s.pool.slots i in
    let popped = record (clear_slot s i) { pending = rest; parked = s.parked - 1 } in
    if leb ssl_max_connections live then (err_ok, s) else serve_staged o p.pcb p.pb popped

-- `_promoteSlot`.
pub promote_slot : Outcome → ℕ → Park → ℕ × Park
promote_slot o live s = promote_from o live s.pending s

abbrev pub is_head : ℕ → List ℕ → Bool
is_head i [] = false
is_head i (j ∷ js) = j == i

-- `_s_poll` with the slot found; the difference of the times is one of uint32_t.
pub poll_found : Outcome → ℕ → ℕ → ℕ → Option ℕ → Park → ℕ × Park
poll_found o live now pcb none s = (err_abrt, log s (shed_parked_pcb pcb))
poll_found o live now pcb (some i) s =
    if ltb ssl_queue_idle_ms ((now + 2 ^ 32 - (s.pool.slots i).parked_ms) % 2 ^ 32)
    then (err_abrt, shed i pcb s)
    else (if is_head i s.pending && ltb live ssl_max_connections
        then promote_slot o live s
        else (err_ok, s))

pub s_poll : Outcome → ℕ → ℕ → ℕ → Park → ℕ × Park
s_poll o live now pcb s = poll_found o live now pcb (find_parked s.pool pcb s.pending) s

-- The bytes of a chain: `tot_len` is their number.
abbrev pub bytes_of : List (List ℕ) → List ℕ
bytes_of [] = []
bytes_of (b ∷ bs) = b ++ bytes_of bs

-- `_s_recv` with the slot found; `pb` is [] for NULL.
pub buffer_rx : ℕ → List (List ℕ) → Park → ℕ × Park
buffer_rx i pb s =
    let p = s.pool.slots i in
    let inc = length (bytes_of pb) in
    if leb (p.pb_len + inc) ssl_parked_rx_cap
    then (
      err_ok,
      record s {
        pool = set_slot s.pool i (record p { pb = p.pb ++ pb; pb_len = (p.pb_len + inc) % 2 ^ 16 });
      },
    )
    else (err_ok, log s (pbuf_free pb ∷ []))

pub recv_found : ℕ → List (List ℕ) → Option ℕ → Park → ℕ × Park
recv_found pcb pb none s = (err_ok, log s (free_pb pb))
recv_found pcb [] (some i) s = (err_abrt, shed i pcb s)
recv_found pcb (b ∷ bs) (some i) s = buffer_rx i (b ∷ bs) s

pub s_recv : ℕ → List (List ℕ) → Park → ℕ × Park
s_recv pcb pb s = recv_found pcb pb (find_parked s.pool pcb s.pending) s

-- `_s_error`.
pub s_error : Park → Park
s_error s = free_queued_items s
