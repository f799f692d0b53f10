-- ===== src/Engine/Live.antt =====
-- The life of a session (src/AsyncSecureSession.cpp, ESP8266): runs of the engine, reads, writes
-- and acknowledgements in any order, with other work and callbacks in between.
use async_tcp.Prelude.{
  ℕ, ◌+◌, ◌^◌, ◌≤◌, ◌<◌, ◌≡◌, refl, sym, ap, ◌∙◌, subst, Bool, true, false, not, arith, map, List,
  [], ◌∷◌, ◌++◌, length, take, Option, none, some, ltb, leb, ◌==◌, if◌then◌else◌, if_holds,
  append-nil,
}
use async_tcp.Engine.Ring.{empty_ring}
use async_tcp.Engine.Ring.Account.{Reach, allocated, sent, total, IsConfig, flight, Waits, start}
use async_tcp.Engine.Ring.Window.{window}
use async_tcp.Engine.Ring.Reachable.{Reach-Account}
use async_tcp.Engine.Model.{Bearssl, Sys, Host, Call, emit}
use async_tcp.Engine.Pending.{queue_pbuf, rx_pend_max}
use async_tcp.Engine.Pass.{Events, process_ssl_engine}
use async_tcp.Engine.Pass.Invariant.{Survives}
use async_tcp.Engine.Pass.Wire.{
  wire, consumed, confirmed, has_data, Quiet, Quiet-trans, schedule-Quiet,
}
use async_tcp.Engine.Pass.Sound.{IsSession, IsSteady, Quiet-IsSession, process_ssl_engine-IsSession}
use async_tcp.Engine.Api.{
  scheduled, put_data, tcp_ssl_write, tcp_ssl_read, read_queued, count_acked, tcp_ssl_sent,
  tcp_ssl_tx_busy, tcp_ssl_is_stalled,
}

module _ {E : Type 0} (b : Bearssl E) (h : Host) (out : Events E) (slots size : ℕ) where
  -- The states of a session. lwIP reports an acknowledgement in 16 bits, of bytes that it sent.
  pub data Live : Sys E → Type 0 where
    opened :
        (s : Sys E) → s.pcb.ring ≡ empty_ring → s.pcb.hard_defer_start ≡ 0 → s.log ≡ [] → Live s
    pumped :
        {s : Sys E} (t : Sys E) → Live s → process_ssl_engine b h out slots size s ≡ some t → Live t
    wrote : {s : Sys E} (bytes : List ℕ) → Live s → Live (tcp_ssl_write b h s bytes).1
    received : {s : Sys E} (pb : List ℕ) → Live s → Live (tcp_ssl_read b h s pb).1
    acked :
        {s : Sys E} (n : ℕ)
        → Live s
        → n < 2 ^ 16
        → confirmed s.log + n ≤ total (wire s.log)
        → Live (tcp_ssl_sent b h slots s n)

  scheduled-Quiet : (s : Sys E) → Quiet s (scheduled b h s)
  unfolding scheduled
  scheduled-Quiet s = schedule-Quiet h s

  put_data-Quiet : (s : Sys E) (bytes : List ℕ) → Quiet s (scheduled b h (put_data b h s bytes))
  unfolding put_data
  put_data-Quiet s bytes =
      Quiet-trans s (put_data b h s bytes) _
        (record {
          ring = refl;
          server = refl;
          handshake = refl;
          written = refl;
          told = refl;
          confirmed_same = refl;
          data_given = refl;
          deferred = refl;
          clock = refl;
        })
        (scheduled-Quiet (put_data b h s bytes))

  write-Quiet : (s : Sys E) (bytes : List ℕ) → Quiet s (tcp_ssl_write b h s bytes).1
  unfolding tcp_ssl_write
  write-Quiet s bytes =
      let wlen = b.sendapp_buf s.eng in
      let clen = if ltb wlen (length bytes) then wlen else length bytes in
      let early : ℕ × Sys E = (0, scheduled b h s) in
      let done : ℕ × Sys E = (clen, scheduled b h (put_data b h s (take clen bytes))) in
      if_holds (λ r. Quiet s r.1) (not (b.current_state s.eng).sendapp) early
        (if wlen == 0 then early else done) (λ _. scheduled-Quiet s)
        (λ _.
          if_holds (λ r. Quiet s r.1) (wlen == 0) early done (λ _. scheduled-Quiet s)
            (λ _. put_data-Quiet s (take clen bytes)))

  read_queued-Quiet : (s : Sys E) (r : Bool × Sys E) → Quiet s r.1 → Quiet s (read_queued b h r).1
  unfolding read_queued
  read_queued-Quiet s (true, t) q = Quiet-trans s t _ q (scheduled-Quiet t)
  read_queued-Quiet s (false, t) q = q

  queue_pbuf-Quiet : (s : Sys E) (pb : List ℕ) → Quiet s (queue_pbuf s pb).1
  unfolding queue_pbuf emit
  queue_pbuf-Quiet s pb =
      let full : Bool × Sys E = (false, emit s (Call.pbuf_free pb)) in
      let room : Bool × Sys E =
        (true, record s { pcb = record s.pcb { rx_pend = s.pcb.rx_pend ++ (pb ∷ []) } }) in
      if_holds (λ r. Quiet s r.1) (leb rx_pend_max (length s.pcb.rx_pend)) full room
        (λ _. record {
          ring = refl;
          server = refl;
          handshake = refl;
          written = refl;
          told = refl;
          confirmed_same = refl;
          data_given = refl;
          deferred = refl;
          clock = refl;
        })
        (λ _. record {
          ring = refl;
          server = refl;
          handshake = refl;
          written = refl;
          told = refl;
          confirmed_same = refl;
          data_given = refl;
          deferred = refl;
          clock = refl;
        })

  read-Quiet : (s : Sys E) (pb : List ℕ) → Quiet s (tcp_ssl_read b h s pb).1
  unfolding tcp_ssl_read
  read-Quiet s pb = read_queued-Quiet s (queue_pbuf s pb) (queue_pbuf-Quiet s pb)

  count_acked-IsSession :
      (s : Sys E) (n : ℕ)
      → n < 2 ^ 16
      → confirmed s.log + n ≤ total (wire s.log)
      → IsSession b h out slots size s
      → IsSession b h out slots size (count_acked b h slots s n)
  unfolding count_acked
  count_acked-IsSession s n word le p = record {
    reached = sent n p.reached word le;
    told = p.told;
    ordered = p.ordered;
    clocked = p.clocked;
  }

  pub sent-IsSession :
      (s : Sys E) (n : ℕ)
      → n < 2 ^ 16
      → confirmed s.log + n ≤ total (wire s.log)
      → IsSession b h out slots size s
      → IsSession b h out slots size (tcp_ssl_sent b h slots s n)
  unfolding tcp_ssl_sent
  sent-IsSession s n word le p =
      let t = count_acked b h slots s n in
      let q = count_acked-IsSession s n word le p in
      if_holds (IsSession b h out slots size) (b.current_state t.eng).sendrec (scheduled b h t) t
        (λ _. Quiet-IsSession b h out slots size t (scheduled b h t) (scheduled-Quiet t) q) (λ _. q)

  opened-IsSession :
      (s : Sys E)
      → s.pcb.ring ≡ empty_ring
      → s.pcb.hard_defer_start ≡ 0
      → s.log ≡ []
      → IsSession b h out slots size s
  opened-IsSession s ring clock log = record {
    reached =
        subst (λ r. Reach slots size r (wire s.log) (confirmed s.log)) (sym ring)
          (subst (λ l. Reach slots size empty_ring (wire l) (confirmed l)) (sym log) allocated);
    told = ap consumed log ∙ sym (ap (λ l. map length (wire l)) log);
    ordered = λ given. let clash : false ≡ true = sym (ap has_data log) ∙ given in absurd cc;
    clocked = λ runs. absurd (runs clock);
  }

  survived :
      (o : Option (Sys E)) (t : Sys E)
      → o ≡ some t
      → Survives (IsSession b h out slots size) o
      → IsSession b h out slots size t
  survived none t e p = absurd cc
  survived (some u) t e p = subst (IsSession b h out slots size) (let f : u ≡ t = cc in f) p

  -- Over the life of a session, from one that has just been opened, in any order of runs of its
  -- engine, writes, reads and acknowledgements, and where what runs outside keeps it and takes
  -- back no handshake that is over: the ring is in a state that the records written and the bytes
  -- acknowledged reach; the engine was told of each record that TCP took, in order, that it is
  -- sent, and of no other; a server's owner gets no data before the handshake is over; and the
  -- stall clock runs only while a record is deferred.
  pub Live-IsSession :
      IsSteady b h out slots size (IsSession b h out slots size)
      → (s : Sys E) → Live s
      → IsSession b h out slots size s
  Live-IsSession steady _ (opened s ring clock log) = opened-IsSession s ring clock log
  Live-IsSession steady _ (pumped {s} t past e) =
      survived _ t e
        (process_ssl_engine-IsSession b h out slots size steady s (Live-IsSession steady s past))
  Live-IsSession steady _ (wrote {s} bytes past) =
      Quiet-IsSession b h out slots size s _ (write-Quiet s bytes) (Live-IsSession steady s past)
  Live-IsSession steady _ (received {s} pb past) =
      Quiet-IsSession b h out slots size s _ (read-Quiet s pb) (Live-IsSession steady s past)
  Live-IsSession steady _ (acked {s} n past word le) =
      sent-IsSession s n word le (Live-IsSession steady s past)

  module _ (config : IsConfig slots size) where
    -- When a session in its invariant is not busy by `tcp_ssl_tx_busy`, the peer has acknowledged
    -- every byte of the records that were written to TCP. The ring has from 1 to 255 slots of less
    -- than 65536 bytes.
    pub tcp_ssl_tx_busy-confirmed :
        (s : Sys E)
        → IsSession b h out slots size s
        → tcp_ssl_tx_busy b h s ≡ false
        → confirmed s.log ≡ total (wire s.log)
    unfolding tcp_ssl_tx_busy
    tcp_ssl_tx_busy-confirmed s p free =
        let a =
          Reach-Account slots size config s.pcb.ring (wire s.log) (confirmed s.log) p.reached in
        let held = a.held in
        let none_pinned : s.pcb.ring.out_ring_pinned ≡ 0 = ground arith in
        let empty : flight slots size s.pcb.ring ≡ [] =
          ap (window slots s.pcb.ring.copied (start slots size s.pcb.ring)) none_pinned in
        let all : wire s.log ≡ held.released =
          held.splits ∙ ap (λ f. held.released ++ f) empty ∙ append-nil held.released in
        let none_left : s.pcb.ring.out_ring_acked ≡ 0 =
          subst (Waits s.pcb.ring.out_ring_acked) empty a.waits in
        omega (arith, held.counted, none_left, ap total all)

  -- A stalled session is busy, and still has its record.
  pub tcp_ssl_is_stalled-tcp_ssl_tx_busy :
      (s : Sys E) (ms : ℕ)
      → IsSession b h out slots size s
      → tcp_ssl_is_stalled b h s ms ≡ true
      → tcp_ssl_tx_busy b h s ≡ true
  unfolding tcp_ssl_is_stalled tcp_ssl_tx_busy
  tcp_ssl_is_stalled-tcp_ssl_tx_busy s ms p stalled =
      let deferred : s.pcb.sendrec_deferred ≡ true = p.clocked (ground arith) in ground arith
