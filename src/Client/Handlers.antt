-- ===== src/Client/Handlers.antt =====
-- The handlers of a client's events in src/AsyncTCP.cpp: `_recv` and its loop, `_fin`, `_sent`,
-- `_poll`, `_connected`, `_dns_found`, and their dispatch by `handle_async_event`.
use async_tcp.Prelude.{
  ℕ, ◌+◌, ◌-◌, ◌*◌, ◌%◌, ◌^◌, Bool, false, ◌&&◌, ◌||◌, not, Option, none, some, List, [], ◌∷◌, ◌==◌,
  ltb, leb, if◌then◌else◌, length,
}
use async_tcp.EventQueue.{Event, sent, recv, fin, poll, accept, connected, dns}
use async_tcp.Client.State.{
  Sys, Context, Env, free_pbuf, told_connect, told_poll, told_data, told_packet, told_ack,
  told_timeout, log, tell, context_at, set_context, drop_to, is_valid_at, fresh_context,
}
use async_tcp.Client.Transport.{tcp_recved}
use async_tcp.Client.Api.{close, close_transport, connect, error, set_contexts, drop_token}

-- A difference of two times, as uint32_t.
abbrev pub elapsed : (later earlier : ℕ) → ℕ
elapsed later earlier = (later + (2 ^ 32 - earlier)) % 2 ^ 32

abbrev pub set_context_at : ℕ → Context → Sys → Sys
set_context_at d c s = set_contexts s (set_context d c s.cb_ctx)

-- `ctx.ack_later = false; ctx.ack_len = len`.
unfoldable pub hand_out : ℕ → ℕ → Option Context → Sys → Sys
hand_out d len none s = s
hand_out d len (some c) s = set_context_at d (record c { ack_later = false; ack_len = len }) s

-- `ctx.ack_later = false` alone.
unfoldable pub reset_later : ℕ → Option Context → Sys → Sys
reset_later d none s = s
reset_later d (some c) s = set_context_at d (record c { ack_later = false }) s

-- The acknowledgement after the data callback, now or later, and `ctx.ack_len = 0`.
unfoldable pub settle : ℕ → Option Context → Sys → Sys
settle d none s = s
settle d (some c) s =
    let later = record s { client = record s.client { rx_ack_len = s.rx_ack_len + c.ack_len } } in
    let done = if c.ack_later then later else (tcp_recved c.ack_len s).1 in
    set_context_at d (record c { ack_len = 0 }) done

-- The data callback, if it and the facade are there, and `pbuf_free(b)`.
unfoldable pub give_data : Option (ℕ → Sys → Sys) → ℕ → Sys → Sys
give_data none b s = log (free_pbuf (b ∷ [])) s
give_data (some f) b s =
    if s.facade == 0
    then log (free_pbuf (b ∷ [])) s
    else log (free_pbuf (b ∷ [])) (f b (log (told_data b) s))

abbrev pub stamp_packet : Sys → Sys
stamp_packet s = record s { client = record s.client { rx_last_packet = s.now } }

-- One turn of the loop of `_recv` for a pbuf of b bytes: the state after the callback, at the
-- loop's test, and the one after what follows the test.
unfoldable pub recv_turn : Env → ℕ → ℕ → Option (ℕ → Sys → Sys) → Sys → Sys × Sys
recv_turn e d b none s =
    let told = give_data e.recv_cb b (hand_out d b (context_at d s.cb_ctx) (stamp_packet s)) in
    (told, settle d (context_at d told.cb_ctx) told)
recv_turn e d b (some f) s =
    let entered = reset_later d (context_at d s.cb_ctx) (stamp_packet s) in
    let told = f b (log (told_packet b) entered) in (told, told)

-- The loop of `_recv` in the context with d others below it: the pbufs that it leaves.
unfoldable pub recv_loop : Env → ℕ → List ℕ → Sys → List ℕ × Sys
recv_loop e d [] s = ([], s)
recv_loop e d (b ∷ pb) s =
    let turn = recv_turn e d b e.pb_cb s in
    let rest = recv_loop e d pb turn.1 in
    if not (is_valid_at d (turn.0).cb_ctx) || ((turn.0).pcb == 0) then (pb, turn.0) else rest

-- `if (pb) pbuf_free(pb)`.
unfoldable pub free_left : List ℕ → Sys → Sys
free_left [] s = s
free_left (b ∷ pb) s = log (free_pbuf (b ∷ pb)) s

-- `if (ctx.client_is_valid) _cb_ctx = ctx.next`.
unfoldable pub pop_context : ℕ → Sys → Sys
pop_context d s = if is_valid_at d s.cb_ctx then set_contexts s (drop_to d s.cb_ctx) else s

-- The end of `_recv`: the pbufs left are freed and the context leaves the stack.
abbrev pub recv_end : ℕ → List ℕ × Sys → Sys
recv_end d (left, s) = pop_context d (free_left left s)

-- `_recv` once no TLS hook took the chain.
unfoldable pub recv_plain : Env → List ℕ → Sys → Sys
recv_plain e pb s =
    recv_end (length s.cb_ctx)
      (recv_loop e (length s.cb_ctx) pb (set_contexts s (fresh_context ∷ s.cb_ctx)))

-- What a handler does when its TLS hook answers: true means that the hook did the work.
unfoldable pub unless_taken : (Sys → Sys) → Bool × Sys → Sys
unless_taken f (taken, s) = if taken then s else f s

unfoldable pub on_recv : Env → List ℕ → Sys → Sys
on_recv e pb s = elim e.hooks [
  | none ↦ recv_plain e pb s
  | some h ↦ unless_taken (recv_plain e pb) (h.on_recv pb s)
]

-- `_fin`.
unfoldable pub on_fin : Env → Sys → Sys
on_fin e s = if s.pcb == 0 then s else close e s

unfoldable pub sent_plain : Env → ℕ → Sys → Sys
sent_plain e len s =
    let stamped = record s {
      client = record s.client { rx_last_packet = s.now; rx_last_ack = s.now };
    } in
    let time = elapsed s.now s.tx_last_packet in
    elim e.sent_cb [ none ↦ stamped | some f ↦ f len time (log (told_ack len time) stamped) ]

-- `_sent`.
unfoldable pub on_sent : Env → ℕ → Sys → Sys
on_sent e len s =
    let done : Sys = elim e.hooks [
      | none ↦ sent_plain e len s
      | some h ↦ unless_taken (sent_plain e len) (h.on_sent len s)
    ] in
    if s.pcb == 0 then s else done

abbrev pub one_day : ℕ
one_day = 86400000

-- `last_tx_is_after_last_ack`.
unfoldable pub last_tx_is_after_last_ack : (ack tx : ℕ) → Bool
last_tx_is_after_last_ack ack tx = ltb ((elapsed ack tx + one_day) % 2 ^ 32) one_day

-- The test of the ACK timeout.
unfoldable pub is_ack_due : Sys → Bool
is_ack_due s =
    not (s.ack_timeout == 0)
    && (last_tx_is_after_last_ack s.rx_last_ack s.tx_last_packet
        && leb s.ack_timeout (elapsed s.now s.tx_last_packet))

-- The test of the RX timeout, in seconds.
unfoldable pub is_rx_due : Sys → Bool
is_rx_due s =
    not (s.rx_timeout == 0) && leb (s.rx_timeout * 1000 % 2 ^ 32) (elapsed s.now s.rx_last_packet)

unfoldable pub poll_plain : Env → Sys → Sys
poll_plain e s = tell e.poll_cb told_poll s

-- `_poll` past the ACK timeout.
unfoldable pub poll_rest : Env → Sys → Sys
poll_rest e s =
    let polled : Sys = elim e.hooks [
      | none ↦ poll_plain e s
      | some h ↦ unless_taken (poll_plain e) (h.on_poll s)
    ] in
    if is_rx_due s then (close_transport e s).1 else polled

-- The ACK timeout of `_poll` goes to its callback alone, and is passed over if there is none.
unfoldable pub poll_ack : Env → Option (ℕ → Sys → Sys) → Sys → Sys
poll_ack e none s = poll_rest e s
poll_ack e (some f) s =
    let time = elapsed s.now s.tx_last_packet in
    if is_ack_due s then f time (log (told_timeout time) s) else poll_rest e s

-- `_poll`.
unfoldable pub on_poll : Env → ℕ → Sys → Sys
on_poll e pcb s = if (s.pcb == 0) || not (pcb == s.pcb) then s else poll_ack e e.timeout_cb s

unfoldable pub connected_plain : Env → Sys → Sys
connected_plain e s = tell e.connect_cb told_connect s

-- `_connected`.
unfoldable pub on_connected : Env → ℕ → Sys → Sys
on_connected e pcb s =
    let last : ℕ = if pcb == 0 then s.rx_last_packet else s.now in
    let adopted = record s {
      client = record s.client {
        pcb = pcb;
        rx_last_packet = last;
        tx_last_packet = 0;
        rx_last_ack = 0;
      };
    } in
    elim e.hooks [
      | none ↦ connected_plain e adopted
      | some h ↦ unless_taken (connected_plain e) (h.on_connected adopted)
    ]

-- `_dns_found`, where 0 is the empty address.
unfoldable pub on_dns_found : Env → ℕ → Sys → Sys
on_dns_found e addr s =
    let found = drop_token s in
    if addr == 0 then error e 55 found else (connect e addr s.connect_port found).1

-- `handle_async_event` for an event of this client; `accepted` is what the listener of an accept
-- event does with the new client.
unfoldable pub handle_async_event : Env → (Event → Sys → Sys) → Event → Sys → Sys
handle_async_event e accepted (recv pcb pb err) s = if s.dead then s else on_recv e pb s
handle_async_event e accepted (fin pcb err) s = if s.dead then s else on_fin e s
handle_async_event e accepted (sent pcb len) s = if s.dead then s else on_sent e len s
handle_async_event e accepted (poll pcb) s = if s.dead then s else on_poll e pcb s
handle_async_event e accepted (Event.error err) s = if s.dead then s else error e err s
handle_async_event e accepted (connected pcb err) s = if s.dead then s else on_connected e pcb s
handle_async_event e accepted (accept client server epoch) s =
    accepted (accept client server epoch) s
handle_async_event e accepted (dns addr token) s =
    if s.dead || not (s.dns_token == token) then s else on_dns_found e addr s
