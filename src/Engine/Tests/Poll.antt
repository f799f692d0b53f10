-- ===== src/Engine/Tests/Poll.antt =====
-- Acknowledgements, stalls, a closed window and the hooks, at concrete inputs.
use async_tcp.Prelude.{◌+◌, ◌≤◌, ◌≡◌, refl, true, false, arith, [], ◌∷◌, some}
use async_tcp.Engine.Ring.{fill, commit, ring_sent, oldest, release_loop, release_oldest, anchor}
use async_tcp.Engine.Ring.Account.{total}
use async_tcp.Engine.Model.{Sys, Host}
use async_tcp.Engine.Pending.{feed_pending, feed_loop, work, queue_pbuf}
use async_tcp.Engine.Pass.{
  schedule_ssl_engine, handshake_over, window_open, write_record, emit_record, serve, declare,
  serve_alive, flush_open, turn_alive, wind_up, pump_turn, pump, process_ssl_engine, record_queued,
  record_refused, stall_clock,
}
use async_tcp.Engine.Pass.Wire.{wire, confirmed}
use async_tcp.Engine.Pass.Sound.{IsSession, IsSteady}
use async_tcp.Engine.Pass.Gate.{IsGated, process_ssl_engine-again}
use async_tcp.Engine.Live.{
  opened, pumped, acked, Live-IsSession, tcp_ssl_tx_busy-confirmed,
  tcp_ssl_is_stalled-tcp_ssl_tx_busy,
}
use async_tcp.Engine.Api.{
  tcp_ssl_sent, tcp_ssl_tx_busy, tcp_ssl_is_stalled, count_acked, tcp_ssl_read, read_queued,
  scheduled,
}
use async_tcp.Engine.Hooks
use async_tcp.Engine.Hooks.{
  Owner, Hooked, on_recv, handshake_late, on_poll, retried, sent_ack, sent_found, is_stalled,
  stalled_found, gone_idle, since, tx_busy, busy_found, engine_busy, pumping_found, is_pumping,
  pump_found, announced_by, announced,
}
use async_tcp.Engine.Hooks.Idle.{on_recv-handshake_late, on_poll-confirmed}
use async_tcp.Engine.Tests.{Toy, toy, toy_host, config, first, others}
use async_tcp.Engine.Tests.Life.{calm, calm-IsSteady, one_record, pumped_once, pumped-Live, get}

abbrev answered : Sys Toy
answered = tcp_ssl_sent toy toy_host 2 pumped_once 3

all_room : confirmed pumped_once.log + 3 ≤ total (wire pumped_once.log)
unfolding process_ssl_engine pump pump_turn turn_alive flush_open serve_alive declare handshake_over
    serve emit_record write_record window_open record_queued wind_up feed_pending feed_loop work get
    fill commit first others
all_room = omega arith

answered-IsSession : IsSession toy toy_host calm 2 8 answered
answered-IsSession =
    Live-IsSession toy toy_host calm 2 8 calm-IsSteady answered
      (acked 3 pumped-Live (omega arith) all_room)

answered_free : tcp_ssl_tx_busy toy toy_host answered ≡ false
unfolding process_ssl_engine pump pump_turn turn_alive flush_open serve_alive declare handshake_over
    serve emit_record write_record window_open record_queued wind_up feed_pending feed_loop work get
    fill commit first others tcp_ssl_sent count_acked scheduled ring_sent oldest release_loop
    release_oldest anchor tcp_ssl_tx_busy
answered_free = refl

tcp_ssl_tx_busy-confirmed_example : confirmed answered.log ≡ total (wire answered.log)
tcp_ssl_tx_busy-confirmed_example =
    tcp_ssl_tx_busy-confirmed toy toy_host calm 2 8 config answered answered-IsSession answered_free

-- A host whose pools are exhausted, and one whose window is closed.
abbrev stuck_host : Host
stuck_host = record toy_host { accepts = λ log bytes. false }

abbrev shut_host : Host
shut_host = record toy_host { sndbuf = λ log. 0 }

abbrev stuck : Sys Toy
stuck = get one_record (process_ssl_engine toy stuck_host calm 2 8 one_record)

stuck_test : process_ssl_engine toy stuck_host calm 2 8 one_record ≡ some stuck
unfolding process_ssl_engine pump pump_turn turn_alive flush_open serve_alive declare handshake_over
    serve emit_record write_record window_open record_refused stall_clock wind_up feed_pending
    feed_loop work get fill first others
stuck_test = refl

stuck_steady : IsSteady toy stuck_host calm 2 8 (IsSession toy stuck_host calm 2 8)
stuck_steady = record { yielded = λ s p. p; called = λ c s p. p; keeps_done = λ c s p. p }

stuck_stalled : tcp_ssl_is_stalled toy stuck_host stuck 0 ≡ true
unfolding process_ssl_engine pump pump_turn turn_alive flush_open serve_alive declare handshake_over
    serve emit_record write_record window_open record_refused stall_clock wind_up feed_pending
    feed_loop work get fill first others tcp_ssl_is_stalled
stuck_stalled = refl

tcp_ssl_is_stalled-tcp_ssl_tx_busy_test : tcp_ssl_tx_busy toy stuck_host stuck ≡ true
tcp_ssl_is_stalled-tcp_ssl_tx_busy_test =
    tcp_ssl_is_stalled-tcp_ssl_tx_busy toy stuck_host calm 2 8 stuck 0
      (Live-IsSession toy stuck_host calm 2 8 stuck_steady stuck
        (pumped stuck (opened one_record refl refl refl) stuck_test))
      stuck_stalled

one_record-IsGated : IsGated toy shut_host calm 2 8 one_record
unfolding window_open first
one_record-IsGated = record {
  closed = refl;
  sendapp = refl;
  recvapp = refl;
  sendrec = refl;
  no_pbuf = refl;
  not_deferred = refl;
  free = omega arith;
  some_bytes = omega arith;
  fit = omega arith;
  no_room = refl;
}

process_ssl_engine-again_test :
    process_ssl_engine toy shut_host calm 2 8 one_record
    ≡ some (schedule_ssl_engine shut_host one_record).1
process_ssl_engine-again_test =
    process_ssl_engine-again toy shut_host calm 2 8 one_record one_record-IsGated refl

-- A client whose session has had all it wrote acknowledged.
abbrev client : Hooked toy toy_host calm 2 8
client = record {
  sess = record { has_pcb = true; ssl = some answered; handshake_done = true };
  last_rx = 0;
  live = true;
}

abbrev after_retry : Sys Toy
after_retry = get answered (retried toy toy_host calm 2 8 client).sess.ssl

retry_test :
    ((retried toy toy_host calm 2 8 client).sess.ssl ≡ some after_retry)
    × ((on_poll toy toy_host calm 2 8 30000 5 client).0 ≡ true)
    × (is_stalled toy toy_host calm 2 8 (retried toy toy_host calm 2 8 client).sess ≡ false)
    × ((retried toy toy_host calm 2 8 client).sess.has_pcb ≡ true)
unfolding process_ssl_engine pump pump_turn turn_alive flush_open serve_alive declare handshake_over
    serve emit_record write_record window_open record_queued wind_up feed_pending feed_loop work get
    fill commit first others tcp_ssl_sent count_acked scheduled ring_sent oldest release_loop
    release_oldest anchor tcp_ssl_tx_busy tcp_ssl_is_stalled retried on_poll handshake_late
    gone_idle since is_stalled stalled_found tx_busy busy_found engine_busy pumping_found is_pumping
    sent_ack sent_found Hooks.pump pump_found announced_by announced
retry_test = (refl, refl, refl, refl)

not_late : handshake_late toy toy_host calm 2 8 30000 client ≡ false
unfolding handshake_late
not_late = refl

on_poll-confirmed_example : confirmed after_retry.log ≡ total (wire after_retry.log)
on_poll-confirmed_example =
    on_poll-confirmed toy toy_host calm 2 8 config calm-IsSteady 30000 5 client after_retry
      answered-IsSession not_late retry_test.2 retry_test.0 retry_test.3 retry_test.1

-- A client at the start of its handshake.
abbrev new_client : Hooked toy toy_host calm 2 8
new_client = record {
  sess = record { has_pcb = true; ssl = some one_record; handshake_done = false };
  last_rx = 0;
  live = true;
}

took_packet : (tcp_ssl_read toy toy_host one_record (5 ∷ [])).0 ≡ true
unfolding tcp_ssl_read queue_pbuf read_queued
took_packet = refl

on_recv-handshake_late_test :
    handshake_late toy toy_host calm 2 8 99999
      (on_recv toy toy_host calm 2 8 1 new_client (some (5 ∷ [])))
    ≡ false
on_recv-handshake_late_test =
    on_recv-handshake_late toy toy_host calm 2 8 config 1 99999 new_client one_record (5 ∷ []) refl
      refl took_packet
