-- ===== src/Engine/Pass.antt =====
-- One run of a session's engine (`process_ssl_engine` of src/AsyncSecureSession.cpp, ESP8266)
-- and `schedule_ssl_engine`. `none` is a session that was freed while the run was out in `yield`
-- or a callback, which ends the run. An error code is the int8_t that the callback takes, as a
-- byte.
pub mod Invariant
pub mod Wire
pub mod Gate
pub mod Sound
use async_tcp.Prelude.{
  ℕ, zero, suc, ◌%◌, ◌^◌, Bool, true, false, not, ◌&&◌, ◌||◌, List, [], ◌∷◌, ltb, leb, ◌==◌,
  if◌then◌else◌, length, Option, none, some,
}
use async_tcp.Engine.Ring.{Ring, fill, commit}
use async_tcp.Engine.Model.{
  Pump, idle, dropped, queued, Pcb, State, Bearssl, Sys, Host, Call, write, sendrec_ack, tcp_output,
  schedule, data_event, handshake_event, error_event, emit,
}
use async_tcp.Engine.Pending.{feed_pending}

-- SSL_MAX_FEED_LOOPS
abbrev pub max_feed_loops : ℕ
max_feed_loops = 10

-- What runs outside: other work while the run yields, and the callbacks of the session's owner.
pub record Events (E : Type 0) : Type 0 where
  pub yields : Sys E → Option (Sys E)
  pub calls : Call → Sys E → Option (Sys E)

-- How a turn of the loop ends: `continue`, `break` or `return`.
pub data Turn (E : Type 0) : Type 0 where
  again : Sys E → Turn E
  leave : Sys E → Turn E
  finished : Option (Sys E) → Turn E

module _ {E : Type 0} where
  unfoldable pub set_pump : Sys E → Pump → Sys E
  set_pump s p = record s { pcb = record s.pcb { engine_pump_state = p } }

  unfoldable pub arm : Host → Sys E → Bool × Sys E
  arm h s =
      let armed = h.schedules s.log in
      let t = emit (set_pump s dropped) (schedule armed) in
      (armed, if armed then set_pump t queued else t)

  unfoldable pub schedule_from : Host → Sys E → Pump → Bool × Sys E
  schedule_from h s queued = (false, s)
  schedule_from h s idle = arm h s
  schedule_from h s dropped = arm h s

  -- `schedule_ssl_engine`
  unfoldable pub schedule_ssl_engine : Host → Sys E → Bool × Sys E
  schedule_ssl_engine h s = schedule_from h s s.pcb.engine_pump_state

  unfoldable pub resume : Option (Sys E) → Turn E
  resume none = finished none
  resume (some s) = again s

  unfoldable pub handshake_over : State → Sys E → Bool
  handshake_over st s =
      not s.pcb.handshake_done
      && ((s.pcb.is_server && st.recvapp) || (not s.pcb.is_server && st.sendapp))

  unfoldable pub set_handshake_done : Sys E → Sys E
  set_handshake_done s = record s { pcb = record s.pcb { handshake_done = true } }

-- `slots` is SSL_RECORD_RING_SLOTS and `size` SSL_OUT_BUFFER_SIZE.
module _ {E : Type 0} (b : Bearssl E) (h : Host) (out : Events E) (slots size : ℕ) where
  -- tcp_write took the record from its slot.
  unfoldable pub record_queued : Sys E → List ℕ → Turn E
  record_queued s bytes =
      let r = fill s.pcb.ring bytes in
      again (record {
        pcb = record s.pcb {
          ring = commit slots r bytes;
          sendrec_deferred = false;
          hard_defer_start = 0;
        };
        eng = b.sendrec_ack s.eng (length bytes);
        log =
            tcp_output ∷ sendrec_ack (length bytes) ∷ write (r.copied r.out_ring_next) true ∷ s.log;
      })

  -- The stall clock after a refusal: it starts when nothing is queued, so that no
  -- acknowledgement can come.
  unfoldable pub stall_clock : List Call → ℕ → ℕ → ℕ
  stall_clock log start n =
      if leb n (h.sndbuf log) && (h.sndqueuelen log == 0)
      then (if start == 0 then h.millis log else start)
      else 0

  -- tcp_write refused the record, which the engine keeps.
  unfoldable pub record_refused : Sys E → List ℕ → Turn E
  record_refused s bytes =
      let r = fill s.pcb.ring bytes in
      let log = write (r.copied r.out_ring_next) false ∷ s.log in
      leave (record s {
        pcb = record s.pcb {
          ring = r;
          sendrec_deferred = true;
          hard_defer_start = stall_clock log s.pcb.hard_defer_start (length bytes);
        };
        log = tcp_output ∷ log;
      })

  unfoldable pub window_open : Sys E → List ℕ → Bool
  window_open s bytes =
      leb (length bytes) (h.sndbuf s.log) && ltb (h.sndqueuelen s.log) h.snd_queuelen

  unfoldable pub write_record : Sys E → List ℕ → Turn E
  write_record s bytes =
      let r = fill s.pcb.ring bytes in
      if window_open s bytes
      then (if h.accepts s.log (r.copied r.out_ring_next)
          then record_queued s bytes
          else record_refused s bytes)
      else leave s

  unfoldable pub emit_record : Sys E → Turn E
  emit_record s =
      let bytes = b.sendrec_buf s.eng in
      if leb slots s.pcb.ring.out_ring_pinned
      then leave s
      else (if ltb 0 (length bytes) && leb (length bytes) size
          then write_record s bytes
          else leave s)

  unfoldable pub take_data : Sys E → List ℕ → Sys E
  take_data s bytes = record s { eng = b.recvapp_ack s.eng (length bytes) }

  unfoldable pub deliver : Sys E → List ℕ → Turn E
  deliver s bytes =
      let t = take_data s bytes in
      if t.pcb.on_data
      then resume (out.calls (data_event bytes) (emit t (data_event bytes)))
      else again t

  -- The branch of RECVAPP, then that of the outbound records.
  unfoldable pub serve : State → Sys E → Turn E
  serve st s =
      let bytes = b.recvapp_buf s.eng in
      if st.recvapp && ltb 0 (length bytes) && ltb (length bytes) s.pcb.inbuf_cap
      then deliver s bytes
      else emit_record s

  -- `on_handshake`, at the first state that shows the handshake over.
  unfoldable pub declare : State → Sys E → Option (Sys E)
  declare st s =
      let t = set_handshake_done s in
      if handshake_over st s
      then (if t.pcb.on_handshake
          then out.calls handshake_event (emit t handshake_event)
          else some t)
      else some s

  unfoldable pub serve_alive : State → Option (Sys E) → Turn E
  serve_alive st none = finished none
  serve_alive st (some s) = serve st s

  unfoldable pub flush_open : State → Sys E → Sys E
  flush_open st s = if st.sendapp then record s { eng = b.flush s.eng } else s

  unfoldable pub fail : Sys E → Turn E
  fail s =
      let err = error_event (b.last_error s.eng % 2 ^ 8) in
      finished (if s.pcb.on_error then out.calls err (emit s err) else some s)

  unfoldable pub turn_alive : Option (Sys E) → Turn E
  turn_alive none = finished none
  turn_alive (some s) =
      let st = b.current_state s.eng in
      let t = flush_open st s in if st.closed then fail t else serve_alive st (declare st t)

  -- What follows the loop.
  unfoldable pub wind_up : Sys E → Option (Sys E)
  wind_up s =
      let st = b.current_state s.eng in
      if not s.pcb.sendrec_deferred && ltb s.pcb.ring.out_ring_pinned slots && st.sendrec
      then some (schedule_ssl_engine h s).1
      else declare st s

  unfoldable pub pump_turn : (Sys E → Option (Sys E)) → Turn E → Option (Sys E)
  pump_turn loop (again s) = loop s
  pump_turn loop (leave s) = wind_up s
  pump_turn loop (finished o) = o

  unfoldable pub pump : ℕ → Sys E → Option (Sys E)
  pump zero s = wind_up s
  pump (suc n) s = pump_turn (λ t. pump n t) (turn_alive (out.yields s))

  unfoldable pub process_ssl_engine : Sys E → Option (Sys E)
  process_ssl_engine s = pump max_feed_loops (feed_pending b s)
