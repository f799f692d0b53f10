-- ===== src/Engine/Hooks/Idle.antt =====
-- When the poll of a client closes it, and what the first packet does to its handshake timeout.
use async_tcp.Prelude.{
  ℕ, ◌+◌, ◌≤◌, ◌≡◌, sym, ap, ◌∙◌, subst, Bool, true, false, arith, List, Option, none, some,
  if◌then◌else◌, if_holds,
}
use async_tcp.Engine.Ring.Account.{total, IsConfig}
use async_tcp.Engine.Ring.Reachable.{Reach-total}
use async_tcp.Engine.Model.{Bearssl, Sys, Host}
use async_tcp.Engine.Pass.{Events}
use async_tcp.Engine.Pass.Invariant.{Survives}
use async_tcp.Engine.Pass.Wire.{wire, confirmed}
use async_tcp.Engine.Pass.Sound.{IsSession, IsSteady, process_ssl_engine-IsSession}
use async_tcp.Engine.Live.{sent-IsSession, tcp_ssl_tx_busy-confirmed}
use async_tcp.Engine.Api.{tcp_ssl_read, tcp_ssl_tx_busy}
use async_tcp.Engine.Hooks.{
  Owner, Hooked, fed, feed_found, feed_rx, sent_found, sent_ack, pump_found, pump, busy_found,
  tx_busy, is_stalled, touch_rx, recv_fed, on_recv, handshake_late, gone_idle, retried, on_poll,
}

module _ {E : Type 0} (b : Bearssl E) (h : Host) (out : Events E) (slots size : ℕ)
    (config : IsConfig slots size) where
  abbrev Alive : Option (Sys E) → Type 0
  Alive o = Survives (IsSession b h out slots size) o

  within : (s : Sys E) → IsSession b h out slots size s → confirmed s.log + 0 ≤ total (wire s.log)
  within s p =
      omega (arith, Reach-total slots size s.pcb.ring (wire s.log) (confirmed s.log) p.reached)

  sent_found-Alive : (o : Option (Sys E)) → Alive o → Alive (sent_found b h out slots size 0 o)
  unfolding sent_found
  sent_found-Alive none p = p
  sent_found-Alive (some s) p = sent-IsSession b h out slots size s 0 (omega arith) (within s p) p

  sent_ack-Alive : (o : Owner E) → Alive o.ssl → Alive (sent_ack b h out slots size o 0).ssl
  unfolding sent_ack
  sent_ack-Alive o p =
      let t : Owner E = record o { ssl = sent_found b h out slots size 0 o.ssl } in
      if_holds (λ (u : Owner E). Alive u.ssl) o.has_pcb t o (λ _. sent_found-Alive o.ssl p) (λ _. p)

  module _ (steady : IsSteady b h out slots size (IsSession b h out slots size)) where
    pump_found-Alive :
        (o : Owner E) (s : Option (Sys E))
        → Alive o.ssl
        → Alive s
        → Alive (pump_found b h out slots size o s).ssl
    unfolding pump_found
    pump_found-Alive o none q p = q
    pump_found-Alive o (some s) q p = process_ssl_engine-IsSession b h out slots size steady s p

    retried-Alive :
        (c : Hooked b h out slots size)
        → Alive c.sess.ssl
        → Alive (retried b h out slots size c).sess.ssl
    unfolding retried pump
    retried-Alive c p =
        let o = sent_ack b h out slots size c.sess 0 in
        let q = sent_ack-Alive c.sess p in pump_found-Alive o o.ssl q q

    -- The session of an owner that has gone idle is not busy.
    idle-busy :
        (now sndbuf : ℕ) (c : Hooked b h out slots size) (s : Sys E)
        → c.sess.ssl ≡ some s
        → c.sess.has_pcb ≡ true
        → gone_idle b h out slots size now sndbuf c ≡ true
        → tcp_ssl_tx_busy b h s ≡ false
    unfolding gone_idle tx_busy busy_found
    idle-busy now sndbuf c s e has gone =
        let free : busy_found b h out slots size c.sess.ssl ≡ false = ground arith in
        sym (ap (busy_found b h out slots size) e) ∙ free

    -- A poll on ESP8266 that closes a client whose handshake is not late and whose session is not
    -- stalled after the poll's retry closes it with every byte that was written to TCP
    -- acknowledged. The session kept its invariant until then, what runs outside keeps it, and
    -- after the retry the session is still there.
    pub on_poll-confirmed :
        (now sndbuf : ℕ) (c : Hooked b h out slots size) (s : Sys E)
        → Alive c.sess.ssl
        → handshake_late b h out slots size now c ≡ false
        → is_stalled b h out slots size (retried b h out slots size c).sess ≡ false
        → (retried b h out slots size c).sess.ssl ≡ some s
        → (retried b h out slots size c).sess.has_pcb ≡ true
        → (on_poll b h out slots size now sndbuf c).0 ≡ true
        → confirmed s.log ≡ total (wire s.log)
    unfolding on_poll
    on_poll-confirmed now sndbuf c s p early going e has closes =
        let d = retried b h out slots size c in
        let gone : gone_idle b h out slots size now sndbuf d ≡ true = ground arith in
        let q : Survives (IsSession b h out slots size) (some s) =
          subst (Survives (IsSession b h out slots size)) e (retried-Alive c p) in
        tcp_ssl_tx_busy-confirmed b h out slots size config s q
          (idle-busy now sndbuf d s e has gone)

  taken-late :
      (now later : ℕ) (c : Hooked b h out slots size) (r : Bool × Sys E)
      → r.0 ≡ true
      → handshake_late b h out slots size later
          (recv_fed b h out slots size now c (fed b h out slots size c.sess r))
        ≡ false
  unfolding recv_fed fed handshake_late touch_rx
  taken-late now later c (true, t) took = ground arith
  taken-late now later c (false, t) took = absurd cc

  found-fed :
      (o : Owner E) (s : Sys E) (pb : List ℕ)
      → o.ssl ≡ some s
      → o.has_pcb ≡ true
      → feed_rx b h out slots size o pb ≡ fed b h out slots size o (tcp_ssl_read b h s pb)
  unfolding feed_rx feed_found
  found-fed o s pb e has =
      ap (λ x. if x then feed_found b h out slots size o o.ssl pb else (false, o)) has
      ∙ ap (λ x. feed_found b h out slots size o x pb) e

  -- After a client on ESP8266 with a session has received a packet that the session's queue takes,
  -- its handshake is never late, whatever the state of the engine.
  pub on_recv-handshake_late :
      (now later : ℕ) (c : Hooked b h out slots size) (s : Sys E) (pb : List ℕ)
      → c.sess.ssl ≡ some s
      → c.sess.has_pcb ≡ true
      → (tcp_ssl_read b h s pb).0 ≡ true
      → handshake_late b h out slots size later (on_recv b h out slots size now c (some pb)) ≡ false
  unfolding on_recv
  on_recv-handshake_late now later c s pb e has took =
      ap (λ r. handshake_late b h out slots size later (recv_fed b h out slots size now c r))
        (found-fed c.sess s pb e has)
      ∙ taken-late now later c (tcp_ssl_read b h s pb) took
