-- ===== src/Server.antt =====
-- AsyncServerImpl (src/AsyncTCP.h, src/AsyncTCP.cpp): the listener, its sessions and the accept
-- events that carry them. The queue is that of the accept events' packets; lwIP's answers and the
-- allocator's are parameters.
pub mod Stale
mod Tests
use async_tcp.Prelude.{
  ℕ, zero, suc, ◌+◌, ◌%◌, ◌^◌, Bool, true, false, ◌&&◌, ◌||◌, not, Option, none, some, List, [],
  ◌∷◌, ◌++◌, ◌==◌, if◌then◌else◌,
}
use async_tcp.EventQueue.{Packet, Event, accept}

abbrev pub err_ok : ℕ
err_ok = 0

abbrev pub err_abrt : ℕ
err_abrt = 13

-- Calls of lwIP, and what becomes of an accepted client: the application is told, or it is
-- aborted.
pub data Call : Type 0 where
  listen arm disarm do_close do_abort : (pcb : ℕ) → Call
  bind : (pcb port : ℕ) → Call
  told_client abort_client : (client : ℕ) → Call

-- The fields that matter: `pcb` is the listening pcb or 0, `session` is uint32_t, and
-- `connect_cb` tells whether there is a callback.
pub record Server : Type 0 where
  pub self : ℕ
  pub pcb : ℕ
  pub port : ℕ
  pub session : ℕ
  pub connect_cb : Bool
  pub queue : List Packet
  pub calls : List Call

abbrev pub log : Call → Server → Server
log c s = record s { calls = s.calls ++ c ∷ [] }

-- What `begin` is answered: whether the task runs, the new pcb or 0, the error of the bind, and the
-- listening pcb or 0. `refused` says whether lwIP refuses to close.
pub record Answers : Type 0 where
  pub started : Bool
  pub new_pcb : ℕ
  pub bound : ℕ
  pub listening : ℕ
  pub refused : Bool

abbrev pub close_pcb : Bool → ℕ → Server → Server
close_pcb refused pcb s =
    let closed = log (do_close pcb) s in if refused then log (do_abort pcb) closed else closed

-- `++_session`.
pub next_session : ℕ → ℕ
next_session n = (n + 1) % 2 ^ 32

-- `begin` once the pcb is bound.
pub begin_listen : Answers → Server → Server
begin_listen a s =
    let tried = log (listen a.new_pcb) s in
    if a.listening == 0
    then close_pcb a.refused a.new_pcb tried
    else log (arm a.listening)
        (record tried { pcb = a.listening; session = next_session s.session })

pub begin : Answers → Server → Server
begin a s =
    let bound = log (bind a.new_pcb s.port) s in
    if not (s.pcb == 0) || (not a.started || (a.new_pcb == 0))
    then s
    else (if a.bound == err_ok then begin_listen a bound else close_pcb a.refused a.new_pcb bound)

-- `end`; `refused` as in Answers.
unfoldable pub end : Bool → Server → Server
end refused s =
    let bumped = record s { session = next_session s.session } in
    if s.pcb == 0
    then bumped
    else record (close_pcb refused s.pcb (log (disarm s.pcb) bumped)) { pcb = 0 }

-- How far the client and the packet of an accept come: no client, one whose pcb was taken away, no
-- packet, or all.
pub data Made : Type 0 where
  no_client no_pcb no_event made : Made

-- The packet of an accept.
abbrev pub accept_packet : ℕ → Server → Packet
accept_packet client s = record { impl = 0; event = accept client s.self s.session }

-- `tcp_accept` past the TLS hook, for a client at the address `client`.
pub accept_plain : Made → (pcb client : ℕ) → Server → ℕ × Server
accept_plain no_client pcb client s = (err_ok, log (do_abort pcb) s)
accept_plain no_pcb pcb client s = (err_abrt, s)
accept_plain no_event pcb client s = (err_abrt, log (do_abort pcb) s)
accept_plain made pcb client s = (err_ok, record s { queue = accept_packet client s ∷ s.queue })

-- `tcp_accept`. A hook's answer is `none` for -1.
pub tcp_accept :
    Option (ℕ → Server → Option ℕ × Server) → Made → (pcb client : ℕ) → Server → ℕ × Server
tcp_accept none m pcb client s =
    if pcb == 0
    then (err_abrt, s)
    else (if s.connect_cb then accept_plain m pcb client s else (err_ok, log (do_abort pcb) s))
tcp_accept (some hook) m pcb client s =
    let (r, t) = hook pcb s in
    let plain =
      if t.connect_cb then accept_plain m pcb client t else (err_ok, log (do_abort pcb) t) in
    if pcb == 0 then (err_abrt, s) else elim r [ none ↦ plain | some err ↦ (err, t) ]

-- `_accepted` without a TLS hook.
pub accepted : ℕ → Server → Server
accepted client s = if s.connect_cb then log (told_client client) s else s

-- The branch of `handle_async_event` for an accept event: a stale one aborts its client.
pub handle_accept : (client server epoch : ℕ) → Server → Server
handle_accept client server epoch s =
    if not (server == 0) && (s.session == epoch)
    then accepted client s
    else (if client == 0 then s else log (abort_client client) s)
