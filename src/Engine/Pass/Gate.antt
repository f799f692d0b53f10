-- ===== src/Engine/Pass/Gate.antt =====
-- A run of the engine whose record finds TCP's window closed.
use async_tcp.Prelude.{
  ℕ, ◌≤◌, ◌<◌, ◌≡◌, ap, ◌∙◌, true, false, not, ◌&&◌, arith, [], length, some, ltb, leb, if_true,
  if_false,
}
use async_tcp.Engine.Model.{Bearssl, Sys, Host}
use async_tcp.Engine.Pending.{feed_pending, feed_loop, work}
use async_tcp.Engine.Pass.{
  Events, leave, schedule_ssl_engine, handshake_over, window_open, write_record, emit_record, serve,
  declare, serve_alive, flush_open, turn_alive, wind_up, pump_turn, pump, process_ssl_engine,
  max_feed_loops,
}

-- The engine holds a record to send and takes no data, the ring has a free slot, no pbuf waits and
-- no record is deferred, the record fits a slot, and TCP has no room for it.
pub record IsGated {E : Type 0} (b : Bearssl E) (h : Host) (out : Events E) (slots size : ℕ)
    (s : Sys E) : Type 0 where
  pub closed : (b.current_state s.eng).closed ≡ false
  pub sendapp : (b.current_state s.eng).sendapp ≡ false
  pub recvapp : (b.current_state s.eng).recvapp ≡ false
  pub sendrec : (b.current_state s.eng).sendrec ≡ true
  pub no_pbuf : s.pcb.rx_pend ≡ []
  pub not_deferred : s.pcb.sendrec_deferred ≡ false
  pub free : s.pcb.ring.out_ring_pinned < slots
  pub some_bytes : 0 < length (b.sendrec_buf s.eng)
  pub fit : length (b.sendrec_buf s.eng) ≤ size
  pub no_room : window_open b h out slots size s (b.sendrec_buf s.eng) ≡ false

module _ {E : Type 0} (b : Bearssl E) (h : Host) (out : Events E) (slots size : ℕ) (s : Sys E)
    (g : IsGated b h out slots size s) where
  nothing_fed : feed_pending b s ≡ s
  unfolding feed_pending feed_loop work
  nothing_fed = ap (λ ps. feed_loop b (work ps) s) g.no_pbuf

  not_over : handshake_over (b.current_state s.eng) s ≡ false
  unfolding handshake_over
  not_over = ground (arith, g.sendapp, g.recvapp)

  declare-same : declare b h out slots size (b.current_state s.eng) s ≡ some s
  unfolding declare
  declare-same = if_false _ _ _ not_over

  emit_record-leave : emit_record b h out slots size s ≡ leave s
  unfolding emit_record write_record
  emit_record-leave =
      if_false (leb slots s.pcb.ring.out_ring_pinned) _ _ (ground (arith, g.free))
      ∙ if_true (ltb 0 (length (b.sendrec_buf s.eng)) && leb (length (b.sendrec_buf s.eng)) size) _
          _ (ground (arith, g.some_bytes, g.fit))
      ∙ if_false _ _ _ g.no_room

  serve-leave : serve b h out slots size (b.current_state s.eng) s ≡ leave s
  unfolding serve
  serve-leave =
      if_false
        ((b.current_state s.eng).recvapp
          && ltb 0 (length (b.recvapp_buf s.eng))
          && ltb (length (b.recvapp_buf s.eng)) s.pcb.inbuf_cap)
        _ _ (ground (arith, g.recvapp))
      ∙ emit_record-leave

  flush_open-same : flush_open b h out slots size (b.current_state s.eng) s ≡ s
  unfolding flush_open
  flush_open-same = if_false _ _ _ g.sendapp

  turn_alive-leave : turn_alive b h out slots size (some s) ≡ leave s
  unfolding turn_alive serve_alive
  turn_alive-leave =
      let st = b.current_state s.eng in
      if_false st.closed _ _ g.closed
      ∙ ap (λ t. serve_alive b h out slots size st (declare b h out slots size st t))
          flush_open-same
      ∙ ap (λ o. serve_alive b h out slots size st o) declare-same
      ∙ serve-leave

  -- When nothing happens outside, the engine holds a record for a free slot and takes no data, no
  -- pbuf waits, no record is deferred, and TCP has no room for the record, a run of the engine
  -- does nothing but schedule the next run.
  pub process_ssl_engine-again :
      out.yields s ≡ some s
      → process_ssl_engine b h out slots size s ≡ some (schedule_ssl_engine h s).1
  unfolding process_ssl_engine pump pump_turn wind_up
  process_ssl_engine-again calm =
      ap (pump b h out slots size max_feed_loops) nothing_fed
      ∙ ap
          (λ o.
            pump_turn b h out slots size (λ t. pump b h out slots size 9 t)
              (turn_alive b h out slots size o))
          calm
      ∙ ap (λ t. pump_turn b h out slots size (λ t. pump b h out slots size 9 t) t) turn_alive-leave
      ∙ if_true
          (not s.pcb.sendrec_deferred
            && ltb s.pcb.ring.out_ring_pinned slots
            && (b.current_state s.eng).sendrec)
          _ _ (ground (arith, g.not_deferred, g.free, g.sendrec))
