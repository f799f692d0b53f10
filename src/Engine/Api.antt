-- ===== src/Engine/Api.antt =====
-- The calls of a session that its owner and lwIP make (src/AsyncSecureSession.cpp, ESP8266):
-- `tcp_ssl_write`, `tcp_ssl_read`, `tcp_ssl_sent`, `tcp_ssl_close`, `tcp_ssl_tx_busy` and
-- `tcp_ssl_is_stalled`, each once its session is found.
pub mod Close
use async_tcp.Prelude.{
  ℕ, zero, suc, ◌+◌, ◌-◌, ◌%◌, ◌^◌, Bool, true, false, not, ◌&&◌, ◌||◌, List, [], ◌∷◌, ltb, leb,
  ◌==◌, if◌then◌else◌, length, take,
}
use async_tcp.Engine.Ring.{ring_sent}
use async_tcp.Engine.Model.{
  Pcb, State, Bearssl, Sys, Host, Call, write_copy, sendrec_ack, tcp_output, sent_event, emit,
}
use async_tcp.Engine.Pending.{queue_pbuf}
use async_tcp.Engine.Pass.{schedule_ssl_engine}

module _ {E : Type 0} (b : Bearssl E) (h : Host) where
  unfoldable pub scheduled : Sys E → Sys E
  scheduled s = (schedule_ssl_engine h s).1

  unfoldable pub put_data : Sys E → List ℕ → Sys E
  put_data s bytes = record s { eng = b.flush (b.sendapp_ack s.eng bytes) }

  -- `tcp_ssl_write`: the bytes taken, and the session.
  unfoldable pub tcp_ssl_write : Sys E → List ℕ → ℕ × Sys E
  tcp_ssl_write s bytes =
      let wlen = b.sendapp_buf s.eng in
      let clen = if ltb wlen (length bytes) then wlen else length bytes in
      if not (b.current_state s.eng).sendapp
      then (0, scheduled s)
      else (if wlen == 0
          then (0, scheduled s)
          else (clen, scheduled (put_data s (take clen bytes))))

  unfoldable pub read_queued : Bool × Sys E → Bool × Sys E
  read_queued (took, s) = (took, if took then scheduled s else s)

  -- `tcp_ssl_read`: whether the pbuf was taken, which is a result of 0.
  unfoldable pub tcp_ssl_read : Sys E → List ℕ → Bool × Sys E
  tcp_ssl_read s pb = read_queued (queue_pbuf s pb)

  unfoldable pub count_acked : ℕ → Sys E → ℕ → Sys E
  count_acked slots s acked = record s {
    pcb = record s.pcb {
      ring = ring_sent slots s.pcb.ring acked;
      body_started = s.pcb.body_started || s.pcb.handshake_done;
    };
    log = sent_event acked ∷ s.log;
  }

  -- `tcp_ssl_sent`
  unfoldable pub tcp_ssl_sent : ℕ → Sys E → ℕ → Sys E
  tcp_ssl_sent slots s acked =
      let t = count_acked slots s acked in
      if (b.current_state t.eng).sendrec then scheduled t else t

  unfoldable pub tcp_ssl_tx_busy : Sys E → Bool
  tcp_ssl_tx_busy s =
      s.pcb.sendrec_deferred || ltb 0 s.pcb.ring.out_ring_pinned || (b.current_state s.eng).sendrec

  -- The clock has 32 bits.
  unfoldable pub tcp_ssl_is_stalled : Sys E → ℕ → Bool
  tcp_ssl_is_stalled s stall_ms =
      let since = (h.millis s.log + 2 ^ 32 - s.pcb.hard_defer_start) % 2 ^ 32 in
      not (s.pcb.hard_defer_start == 0) && leb stall_ms since

-- How far `tcp_ssl_close` gets: it returns, or goes on, with the bytes written so far.
pub data Closing (E : Type 0) : Type 0 where
  returns : ℕ → Sys E → Closing E
  goes_on : ℕ → Sys E → Closing E

-- `size` is SSL_OUT_BUFFER_SIZE.
module _ {E : Type 0} (b : Bearssl E) (h : Host) (size : ℕ) where
  unfoldable pub fits : List ℕ → Bool
  fits bytes = ltb 0 (length bytes) && leb (length bytes) size

  unfoldable pub copied : Sys E → List ℕ → Sys E
  copied s bytes = record s {
    eng = b.sendrec_ack s.eng (length bytes);
    log = sendrec_ack (length bytes) ∷ write_copy bytes true ∷ s.log;
  }

  -- One record written with a copy, unless the engine has none.
  unfoldable pub write_out : ℕ → Sys E → Closing E
  write_out n s =
      let bytes = b.sendrec_buf s.eng in
      if fits bytes
      then (if h.accepts s.log bytes
          then goes_on (n + length bytes) (copied s bytes)
          else returns n (emit s (write_copy bytes false)))
      else goes_on n s

  unfoldable pub flush_data : Sys E → Closing E
  flush_data s =
      if (b.current_state s.eng).sendapp
      then write_out 0 (record s { eng = b.flush s.eng })
      else goes_on 0 s

  unfoldable pub clear_deferred : Closing E → Closing E
  clear_deferred (returns n s) = returns n s
  clear_deferred (goes_on n s) =
      goes_on n (record s { pcb = record s.pcb { sendrec_deferred = false; hard_defer_start = 0 } })

  unfoldable pub drain_deferred : Closing E → Closing E
  drain_deferred (returns n s) = returns n s
  drain_deferred (goes_on n s) =
      let wrote = write_out n s in
      if (b.current_state s.eng).sendrec
      then (if fits (b.sendrec_buf s.eng) then clear_deferred wrote else wrote)
      else goes_on n s

  unfoldable pub notify_written : Closing E → ℕ × Sys E
  notify_written (returns n s) = (n, s)
  notify_written (goes_on n s) = (n, emit s tcp_output)

  unfoldable pub close_notify : Closing E → ℕ × Sys E
  close_notify (returns n s) = (n, s)
  close_notify (goes_on n s) =
      let t = record s { eng = b.close s.eng } in
      if fits (b.sendrec_buf t.eng) then notify_written (write_out n t) else (n, t)

  -- `tcp_ssl_close`: the bytes written, and the session.
  unfoldable pub tcp_ssl_close : Sys E → ℕ × Sys E
  tcp_ssl_close s =
      if (b.current_state s.eng).closed
      then (0, s)
      else close_notify (drain_deferred (flush_data s))
