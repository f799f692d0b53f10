-- ===== src/Engine/Hooks.antt =====
-- The session's owner and the client's hooks on ESP8266: `AsyncSecureSession` of
-- src/AsyncSecureSession.cpp and `SecureClientHooks` of src/AsyncSecureClient.cpp.
pub mod Idle
use async_tcp.Prelude.{
  ℕ, ◌+◌, ◌-◌, ◌%◌, ◌^◌, Bool, true, false, not, ◌&&◌, ◌||◌, List, [], ◌∷◌, ltb, leb, ◌==◌,
  if◌then◌else◌, length, take, Option, none, some,
}
use async_tcp.Engine.Model.{
  Pump, idle, dropped, queued, Pcb, Bearssl, Sys, Host, Call, handshake_event, data_event,
}
use async_tcp.Engine.Pass.{Events, process_ssl_engine}
use async_tcp.Engine.Api.{
  tcp_ssl_write, tcp_ssl_read, tcp_ssl_sent, tcp_ssl_tx_busy, tcp_ssl_is_stalled, tcp_ssl_close,
}

abbrev pub ssl_handshake_timeout : ℕ
ssl_handshake_timeout = 2000

abbrev pub ssl_stall_reset_ms : ℕ
ssl_stall_reset_ms = 4000

abbrev pub ssl_idle_reset_ms : ℕ
ssl_idle_reset_ms = 20000

-- `AsyncSecureSession`: whether `_pcb` is set, the live session that is found for it, and
-- `_handshake_done`.
pub record Owner (E : Type 0) : Type 0 where
  pub has_pcb : Bool
  pub ssl : Option (Sys E)
  pub handshake_done : Bool

-- `_s_handshake` and `_s_data`, which the log shows to have been called.
unfoldable pub announced : List Call → Bool
announced [] = false
announced (handshake_event ∷ log) = true
announced (data_event bytes ∷ log) = true
announced (c ∷ log) = announced log

unfoldable pub is_pumping : Pump → Bool
is_pumping idle = false
is_pumping dropped = true
is_pumping queued = true

-- `slots` is SSL_RECORD_RING_SLOTS and `size` SSL_OUT_BUFFER_SIZE.
module _ {E : Type 0} (b : Bearssl E) (h : Host) (out : Events E) (slots size : ℕ) where
  unfoldable pub fed : Owner E → Bool × Sys E → Bool × Owner E
  fed o (took, s) = (took, record o { ssl = some s; handshake_done = o.handshake_done || took })

  unfoldable pub feed_found : Owner E → Option (Sys E) → List ℕ → Bool × Owner E
  feed_found o none pb = (false, o)
  feed_found o (some s) pb = fed o (tcp_ssl_read b h s pb)

  -- `feedRx`: whether the result is not negative.
  unfoldable pub feed_rx : Owner E → List ℕ → Bool × Owner E
  feed_rx o pb = let r = feed_found o o.ssl pb in if o.has_pcb then r else (false, o)

  unfoldable pub wrote_some : Owner E → ℕ × Sys E → Option ℕ × Owner E
  wrote_some o (n, s) = (some n, record o { ssl = some s })

  unfoldable pub write_found : Owner E → Option (Sys E) → List ℕ → Option ℕ × Owner E
  write_found o none bytes = (none, o)
  write_found o (some s) bytes = wrote_some o (tcp_ssl_write b h s bytes)

  -- `write`, with none for -1.
  unfoldable pub write : Owner E → List ℕ → Option ℕ × Owner E
  write o bytes = let r = write_found o o.ssl bytes in if o.has_pcb then r else (none, o)

  unfoldable pub sent_found : ℕ → Option (Sys E) → Option (Sys E)
  sent_found n none = none
  sent_found n (some s) = some (tcp_ssl_sent b h slots s n)

  -- `sentAck`
  unfoldable pub sent_ack : Owner E → ℕ → Owner E
  sent_ack o n = if o.has_pcb then record o { ssl = sent_found n o.ssl } else o

  unfoldable pub announced_by : Option (Sys E) → Bool
  announced_by none = false
  announced_by (some s) = announced s.log

  unfoldable pub pump_found : Owner E → Option (Sys E) → Owner E
  pump_found o none = o
  pump_found o (some s) =
      let t = process_ssl_engine b h out slots size s in
      record o { ssl = t; handshake_done = o.handshake_done || announced_by t }

  -- `pump`, and a scheduled run of the engine.
  unfoldable pub pump : Owner E → Owner E
  pump o = pump_found o o.ssl

  unfoldable pub stalled_found : Option (Sys E) → Bool
  stalled_found none = false
  stalled_found (some s) = tcp_ssl_is_stalled b h s ssl_stall_reset_ms

  -- `isStalled`
  unfoldable pub is_stalled : Owner E → Bool
  is_stalled o = o.has_pcb && stalled_found o.ssl

  unfoldable pub busy_found : Option (Sys E) → Bool
  busy_found none = false
  busy_found (some s) = tcp_ssl_tx_busy b h s

  -- `txBusy`
  unfoldable pub tx_busy : Owner E → Bool
  tx_busy o = o.has_pcb && busy_found o.ssl

  unfoldable pub pumping_found : Option (Sys E) → Bool
  pumping_found none = false
  pumping_found (some s) = is_pumping s.pcb.engine_pump_state

  -- `engineBusy`
  unfoldable pub engine_busy : Owner E → Bool
  engine_busy o = pumping_found o.ssl

  -- `close`: `tcp_ssl_close` writes what it can before the session is freed.
  unfoldable pub last_words : Option (Sys E) → List Call
  last_words none = []
  last_words (some s) = (tcp_ssl_close b h size s).1.log

  unfoldable pub close : Owner E → List Call × Owner E
  close o = (
    if o.has_pcb then last_words o.ssl else [],
    record { has_pcb = false; ssl = none; handshake_done = false },
  )

  -- A client with these hooks: its owner, `_rx_last_packet`, and whether it has its pcb.
  pub record Hooked : Type 0 where
    pub sess : Owner E
    pub last_rx : ℕ
    pub live : Bool

  -- `c->close()`, which closes the session by `onClosing`.
  unfoldable pub close_client : Hooked → Hooked
  close_client c = record c { sess = (close c.sess).1; live = false }

  unfoldable pub touch_rx : Hooked → ℕ → Hooked
  touch_rx c now = record c { last_rx = now }

  unfoldable pub recv_fed : ℕ → Hooked → Bool × Owner E → Hooked
  recv_fed now c (true, o) = touch_rx (record c { sess = o }) now
  recv_fed now c (false, o) = close_client (record c { sess = o })

  -- `onRecv`, with none for the peer's FIN.
  unfoldable pub on_recv : ℕ → Hooked → Option (List ℕ) → Hooked
  on_recv now c none = close_client c
  on_recv now c (some pb) = recv_fed now c (feed_rx c.sess pb)

  -- `onSent`: whether the client's own accounting is skipped.
  unfoldable pub on_sent : ℕ → Hooked → ℕ → Bool × Hooked
  on_sent now c len =
      let d = record c { sess = sent_ack c.sess len } in
      if not d.sess.handshake_done then (true, touch_rx d now) else (false, d)

  -- now - last, on 32 bits
  unfoldable pub since : ℕ → ℕ → ℕ
  since now last = (now + 2 ^ 32 - last) % 2 ^ 32

  unfoldable pub handshake_late : ℕ → Hooked → Bool
  handshake_late now c =
      not c.sess.handshake_done && leb ssl_handshake_timeout (since now c.last_rx)

  -- The test for a connection that has gone idle; `sndbuf` is tcp_sndbuf.
  unfoldable pub gone_idle : ℕ → ℕ → Hooked → Bool
  gone_idle now sndbuf c =
      c.sess.handshake_done
      && leb ssl_idle_reset_ms (since now c.last_rx)
      && not (tx_busy c.sess)
      && not (engine_busy c.sess)
      && not (sndbuf == 0)

  unfoldable pub retried : Hooked → Hooked
  retried c = record c { sess = pump (sent_ack c.sess 0) }

  -- `onPoll`: whether the client's own poll is skipped.
  unfoldable pub on_poll : ℕ → ℕ → Hooked → Bool × Hooked
  on_poll now sndbuf c =
      let d = retried c in
      if not c.live
      then (false, c)
      else (if handshake_late now c
          then (true, close_client c)
          else (if is_stalled d.sess
              then (true, close_client d)
              else (if gone_idle now sndbuf d then (true, close_client d) else (false, d))))

  unfoldable pub write_done : Hooked → Option ℕ × Owner E → ℕ × Hooked
  write_done c (none, o) = (0, close_client (record c { sess = o }))
  write_done c (some n, o) = (n, record c { sess = o })

  -- `onWrite`; `room` is the client's `space()`.
  unfoldable pub on_write : ℕ → Hooked → List ℕ → ℕ × Hooked
  on_write room c bytes =
      let will_send = if ltb room (length bytes) then room else length bytes in
      write_done c (write c.sess (take will_send bytes))
