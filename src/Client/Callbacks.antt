-- ===== src/Client/Callbacks.antt =====
-- What lwIP calls for a client (src/AsyncTCP.cpp): `_tcp_connected`, `tcp_poll`, `tcp_recv`,
-- `tcp_sent`, `tcp_error` and `_tcp_dns_found`. Each puts a packet on the queue; `allocated` says
-- whether there is memory for it. The wake-up of the task is in EventQueue.
use async_tcp.Prelude.{
  ℕ, ◌≡◌, refl, ◌≢◌, ap, ◌∙◌, arith, sym, subst, append-nil, Bool, true, false, Option, none, some,
  List, [], ◌∷◌, ◌++◌, ◌==◌, ==_ne, ==_refl, ltb, if◌then◌else◌, length,
}
use async_tcp.EventQueue.{
  Packet, Event, push_back, throttle_limit, xor_shift_next, connected, recv, fin, sent, poll, dns,
  purge, remove_events_for_client,
}
use async_tcp.EventQueue.Purge.{events_of, remove_events_for_client_lem}
use async_tcp.Client.State.{Sys, Hooks, Env, err_ok}
use async_tcp.Client.Transport.{purge_events}
use async_tcp.Client.Handlers.{stamp_packet}

-- The absolute value of ERR_MEM.
abbrev pub err_mem : ℕ
err_mem = 1

pub queue_event : Bool → Event → Sys → ℕ × Sys
queue_event false event s = (err_mem, s)
queue_event true event s =
    (err_ok, record s { queue = push_back s.queue (record { impl = s.self; event = event }) })

pub tcp_connected : Bool → (pcb err : ℕ) → Sys → ℕ × Sys
tcp_connected allocated pcb err s = queue_event allocated (connected pcb err) (stamp_packet s)

-- The poll is dropped while the queue is long.
pub tcp_poll : Bool → (pcb : ℕ) → Sys → ℕ × Sys
tcp_poll allocated pcb s =
    let r = xor_shift_next s.queue.rng in
    let drawn = record s { queue = record s.queue { rng = r } } in
    if ltb (throttle_limit r) (length s.queue.packets)
    then (err_ok, drawn)
    else queue_event allocated (poll pcb) drawn

-- A chain that is NULL, here [], is the peer's FIN.
pub tcp_recv : Bool → (pcb : ℕ) → List ℕ → (err : ℕ) → Sys → ℕ × Sys
tcp_recv allocated pcb [] err s = queue_event allocated (fin pcb err) (stamp_packet s)
tcp_recv allocated pcb (b ∷ pb) err s =
    queue_event allocated (recv pcb (b ∷ pb) err) (stamp_packet s)

pub tcp_sent : Bool → (pcb len : ℕ) → Sys → ℕ × Sys
tcp_sent allocated pcb len s = queue_event allocated (sent pcb len) s

-- `_tls_client_hooks->onError(client, err)`
pub error_hook : Option Hooks → ℕ → Sys → Sys
error_hook none err s = s
error_hook (some h) err s = h.on_error err s

-- lwIP has freed the pcb.
pub forget_pcb : Option Hooks → ℕ → Sys → Sys
forget_pcb hooks err s =
    let purged = (purge_events (error_hook hooks err s)).1 in
    if s.pcb == 0 then s else record purged { client = record purged.client { pcb = 0 } }

pub tcp_error : Env → Bool → (err : ℕ) → Sys → Sys
tcp_error e allocated err s = (queue_event allocated (Event.error err) (forget_pcb e.hooks err s)).1

-- The answer of a lookup that the client has moved on from is dropped.
pub tcp_dns_found : Bool → (addr token : ℕ) → Sys → Sys
tcp_dns_found allocated addr token s =
    if s.dns_token == token then (queue_event allocated (dns addr token) s).1 else s

events_of-snoc :
    (c : ℕ) (p : Packet) (ps : List Packet)
    → events_of c (ps ++ p ∷ []) ≡ events_of c ps ++ events_of c (p ∷ [])
events_of-snoc c p [] = refl
events_of-snoc c p (q ∷ ps) = ground (arith, events_of-snoc c p ps)

-- What lwIP's error leaves: the client has no pcb, the only event of it in the queue is the error,
-- and every other client has its events as before.
pub record Failed (err : ℕ) (s t : Sys) : Type 0 where
  pub pcb : t.pcb ≡ 0
  pub own :
      events_of s.self t.queue.packets ≡ record { impl = s.self; event = Event.error err } ∷ []
  pub others : (c : ℕ) → c ≢ s.self → events_of c t.queue.packets ≡ events_of c s.queue.packets

-- The state once the pcb is forgotten, without TLS hooks.
abbrev forgotten : Sys → Sys
forgotten s = record s {
  client = record s.client { pcb = 0 };
  queue = record s.queue { packets = purge s.self s.queue.packets };
}

forget_pcb-forgotten :
    (o : Option Hooks) (err : ℕ) (s : Sys) → o ≡ none → s.pcb ≢ 0 → forget_pcb o err s ≡ forgotten s
unfolding forget_pcb error_hook purge_events remove_events_for_client
forget_pcb-forgotten o err s p live = ap (λ h. forget_pcb h err s) p ∙ rw (==_ne s.pcb 0 live) refl

-- The client's own error behind the purged queue.
forgotten-Failed :
    (err : ℕ) (s : Sys) → Failed err s (queue_event true (Event.error err) (forgotten s)).1
unfolding queue_event remove_events_for_client
forgotten-Failed err s =
    let ps = purge s.self s.queue.packets in
    let mine : Packet = record { impl = s.self; event = Event.error err } in
    let (gone, kept, _) = remove_events_for_client_lem s.self s.queue in
    record {
      pcb = refl;
      own = events_of-snoc s.self mine ps ∙ rw (gone, ==_refl s.self) refl;
      others = λ c h.
          events_of-snoc c mine ps ∙ rw (kept c h, ==_ne s.self c (λ q. h (sym q))) (append-nil _);
    }

-- Without TLS hooks, and with memory for the packet, an error that lwIP reports for an open client
-- takes its pcb away, removes all its events from the queue and puts the error there; the events
-- of the other clients stay as they are.
pub tcp_error-Failed :
    (e : Env) (err : ℕ) (s : Sys)
    → e.hooks ≡ none
    → s.pcb ≢ 0
    → Failed err s (tcp_error e true err s)
unfolding tcp_error
tcp_error-Failed e err s p live =
    subst (λ t. Failed err s (queue_event true (Event.error err) t).1)
      (sym (forget_pcb-forgotten e.hooks err s p live)) (forgotten-Failed err s)
