-- ===== src/Client/Tests.antt =====
-- Runs of a client, and its theorems at concrete inputs.
use async_tcp.Prelude.{
  ◌≡◌, refl, arith, ℕ, ◌+◌, ◌<◌, ◌≤◌, ◌↔◌, true, false, inl, inr, none, some, [], ◌∷◌, length, ◌∙◌,
  ap, ◌==◌, Bool-cases, if◌then◌else◌, ltb,
}
use async_tcp.EventQueue.{Packet, Event, remove_events_for_client, count_for}
use async_tcp.Client.State.{
  Sys, Client, Env, recved, unbind, do_close, is_valid_at, err_ok, err_conn,
}
use async_tcp.Client.Transport.{
  tcp_recved, tcp_close, close_pcb, reset_tcp_callbacks, purge_events, tcp_abort, tcp_abort_no_sys,
}
use async_tcp.Client.Api.{
  ack, close, connect, connect_host, add, space, close_transport, ack_pending, tell_closed,
  closing_with,
}
use async_tcp.Client.Handlers.{
  recv_plain, recv_loop, recv_turn, hand_out, give_data, settle, pop_context, free_left, elapsed,
  last_tx_is_after_last_ack, one_day,
}
use async_tcp.Client.Window.{credit, credit-ack, KeepsIf, IsSilent, close-credit}
use async_tcp.Client.Delivery.{IsGentle, IsGentleIf}
use async_tcp.Client.Receive.{Received, recv_plain-Received}
use async_tcp.Client.Status.{
  connected, connecting, disconnecting, disconnected, freeable, one_if, status-one, connect-unseen,
  add-fits, connect_host-stuck, abort-dead,
}
use async_tcp.Client.Callbacks.{Failed, tcp_error, tcp_error-Failed}
use async_tcp.Client.Timeout.{last_tx_is_after_last_ack-elapsed}

abbrev error_packet : Packet
error_packet = record { impl = 500; event = Event.error 13 }

-- A client at address 500 with pcb 7, which owes 5 bytes.
abbrev open_client : Client
open_client = record {
  self = 500;
  pcb = 7;
  facade = 600;
  cb_ctx = [];
  rx_ack_len = 5;
  rx_timeout = 0;
  rx_last_ack = 0;
  rx_last_packet = 0;
  tx_last_packet = 0;
  ack_timeout = 5000;
  connect_port = 0;
  dns_token = 0;
  dead = false;
}

abbrev running : Sys
running = record {
  client = open_client;
  queue = record { packets = error_packet ∷ []; rng = 1 };
  calls = [];
  now = 90;
}

-- In a callback that has 3 bytes in hand.
abbrev in_callback : Sys
in_callback = record running {
  client = record open_client {
    cb_ctx = record { client_is_valid = true; ack_later = false; ack_len = 3 } ∷ [];
  };
}

abbrev idle : Sys
idle = record running { client = record open_client { pcb = 0 } }

-- lwIP grants everything, and the send buffer has room for 100 bytes. There are no callbacks.
abbrev env : Env
env = record {
  pcb_state = λ s p. 4;
  sndbuf = λ s p. 100;
  tcp_write = λ s n. 0;
  tcp_output = λ s. 0;
  tcp_close = λ s. 0;
  tcp_connect = λ s. 0;
  tcp_new = λ s. 9;
  gethostbyname = λ s. (5, 0);
  new_token = λ s. 77;
  hooks = none;
  connect_cb = none;
  discard_cb = none;
  server_discard_cb = none;
  sent_cb = none;
  error_cb = none;
  recv_cb = none;
  pb_cb = none;
  timeout_cb = none;
  poll_cb = none;
}

-- The application acknowledges one byte of those it put off, in each callback.
ack_one : ℕ → Sys → Sys
ack_one b s = (ack 1 s).1

abbrev acking : Env
acking = record env { recv_cb = some ack_one }

tcp_recved-contexts : (n : ℕ) (s : Sys) → ((tcp_recved n s).1).cb_ctx ≡ s.cb_ctx
unfolding tcp_recved
tcp_recved-contexts n s = elim (Bool-cases (s.pcb == 0)) [ inl p ↦ rw p refl | inr p ↦ rw p refl ]

paid-contexts : (n : ℕ) (s : Sys) → (if n == 0 then s else (tcp_recved n s).1).cb_ctx ≡ s.cb_ctx
paid-contexts n s = elim (Bool-cases (n == 0)) [
  | inl p ↦ rw p refl
  | inr p ↦ rw p (tcp_recved-contexts n s)
]

ack_one-contexts : (b : ℕ) (s : Sys) → (ack_one b s).cb_ctx ≡ s.cb_ctx
unfolding ack_one ack
ack_one-contexts b s = paid-contexts (if ltb s.rx_ack_len 1 then s.rx_ack_len else 1) s

ack_one-IsGentle : IsGentle ack_one
unfolding IsGentle ack_one
ack_one-IsGentle b s =
    let same = ack_one-contexts b s in
    (credit-ack 1 s, (ap length same, λ d v. inr (ap (is_valid_at d) same ∙ v)))

acking-IsGentleIf : IsGentleIf acking.recv_cb
unfolding IsGentleIf
acking-IsGentleIf f p = let q : ack_one ≡ f = cc in rw (← q) ack_one-IsGentle

recv_test : (recv_plain acking (4 ∷ 2 ∷ []) running).rx_ack_len ≡ 3
unfolding recv_plain recv_loop recv_turn hand_out give_data settle pop_context free_left ack_one ack
    tcp_recved
recv_test = refl

recv_plain-Received_example :
    Received 0 (credit running) (4 ∷ 2 ∷ []) (recv_plain acking (4 ∷ 2 ∷ []) running)
recv_plain-Received_example =
    recv_plain-Received acking (4 ∷ 2 ∷ []) running refl acking-IsGentleIf (omega arith)

none-KeepsIf : KeepsIf none
unfolding KeepsIf
none-KeepsIf f p = absurd cc

none-IsSilent : IsSilent none
unfolding IsSilent
none-IsSilent h p s = absurd cc

close_test : (close env in_callback).calls ≡ recved 7 8 ∷ unbind 7 ∷ do_close 7 ∷ []
unfolding close close_transport ack_pending tell_closed tcp_close close_pcb reset_tcp_callbacks
    purge_events tcp_recved remove_events_for_client closing_with
close_test = refl

close-credit_example : credit (close env in_callback) ≡ credit in_callback
close-credit_example = close-credit env in_callback none-IsSilent none-KeepsIf none-KeepsIf

credit-ack_test : credit (ack 3 running).1 ≡ credit running
credit-ack_test = credit-ack 3 running

status-one_test :
    one_if (connected env running)
      + one_if (connecting env running)
      + one_if (disconnecting env running)
      + one_if (disconnected env running)
    ≡ 1
status-one_test = status-one env running refl (omega arith)

connect-unseen_test :
    (disconnected env (connect env 3232235777 80 idle).1 ≡ true)
    × ((freeable env (connect env 3232235777 80 idle).1 ≡ true)
        × (connecting env (connect env 3232235777 80 idle).1 ≡ false))
unfolding connect
connect-unseen_test = connect-unseen env 3232235777 80 idle refl

add-fits_test :
    ((add env false 250 1 running).0 ≤ 250) × ((add env false 250 1 running).0 ≤ space env running)
add-fits_test = add-fits env false 250 1 running refl

abort-dead_test :
    ((tcp_abort_no_sys idle).0 ≡ err_ok)
    × (((tcp_abort idle).0 ≡ err_conn) × (((tcp_abort idle).1).queue ≡ idle.queue))
unfolding purge_events remove_events_for_client count_for
abort-dead_test = abort-dead idle refl (omega arith)

-- The clock wrapped around between the acknowledgement and the packet.
last_tx_is_after_last_ack-elapsed_example :
    (last_tx_is_after_last_ack 4294967290 10 ≡ true)
    ↔ ((0 < elapsed 10 4294967290) × (elapsed 10 4294967290 ≤ one_day))
last_tx_is_after_last_ack-elapsed_example =
    last_tx_is_after_last_ack-elapsed 4294967290 10 (omega arith) (omega arith)

-- A lookup that has no memory.
abbrev nameless : Env
nameless = record env { gethostbyname = λ s. (1, 0) }

connect_host-stuck_test :
    let r = connect_host nameless true 80 idle in
    (r.0 ≡ false)
    × ((connecting nameless r.1 ≡ true)
        × ((disconnected nameless r.1 ≡ false) × (freeable nameless r.1 ≡ false)))
connect_host-stuck_test =
    connect_host-stuck nameless 80 1 idle (λ t. refl) (omega arith) (omega arith) (omega arith)

tcp_error-Failed_test : Failed 14 running (tcp_error env true 14 running)
tcp_error-Failed_test = tcp_error-Failed env 14 running refl (omega arith)
