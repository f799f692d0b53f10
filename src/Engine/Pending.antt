-- ===== src/Engine/Pending.antt =====
-- The queue of received pbufs (src/AsyncSecureSession.cpp, ESP8266): `tcp_ssl_read`, the first
-- loop of `process_ssl_engine`, and `tcp_ssl_free_rx_pend`.
pub mod Stream
pub mod Arrivals
use async_tcp.Prelude.{
  ℕ, zero, suc, ◌+◌, ◌-◌, ◌*◌, ◌%◌, ◌^◌, Bool, true, false, ◌&&◌, List, [], ◌∷◌, ◌++◌, ltb, leb,
  ◌==◌, if◌then◌else◌, length, take, drop, get_elem?, Option, none, some,
}
use async_tcp.Engine.Model.{Pcb, Bearssl, Sys, Call, recvrec, tcp_recved, pbuf_free, emit}

-- SSL_RX_PEND_MAX
abbrev pub rx_pend_max : ℕ
rx_pend_max = 16

-- The two bytes of a record header that hold its length.
unfoldable pub record_len : Option ℕ → Option ℕ → Option ℕ
record_len (some hi) (some lo) = some (hi * 2 ^ 8 + lo)
record_len _ _ = none

unfoldable pub raise : ℕ → Option ℕ → ℕ
raise m none = m
raise m (some n) = if ltb m n then n else m

-- The bytes and the pbufs that wait, which is fuel enough.
unfoldable pub work : List (List ℕ) → ℕ
work [] = 0
work (p ∷ ps) = suc (length p + work ps)

module _ {E : Type 0} (b : Bearssl E) where
  -- The largest record length seen, at the start of a record.
  unfoldable pub measure : Sys E → List ℕ → Sys E
  measure s head =
      let fresh = (s.pcb.rx_pend_head_off == 0) && b.fresh s.eng && leb 5 (length head) in
      let seen = raise s.pcb.max_rec_len (record_len (get_elem? head 3) (get_elem? head 4)) in
      record s { pcb = record s.pcb { max_rec_len = if fresh then seen else s.pcb.max_rec_len } }

  -- A pbuf that is used up gives its length back to the peer's window.
  unfoldable pub retire : Sys E → List ℕ → List (List ℕ) → Sys E
  retire s head rest =
      if leb (length head) s.pcb.rx_pend_head_off
      then record s {
        pcb = record s.pcb { rx_pend = rest; rx_pend_head_off = 0 };
        log = pbuf_free head ∷ tcp_recved (length head) ∷ s.log;
      }
      else s

  unfoldable pub feed_bytes : Sys E → List ℕ → Sys E
  feed_bytes s head =
      let consumed = s.pcb.rx_pend_head_off in
      let available = b.recvrec_buf s.eng in
      let left = length head - consumed in
      let to_feed = if ltb available left then available else left in
      let bytes = take to_feed (drop consumed head) in
      record {
        pcb = record s.pcb { rx_pend_head_off = (consumed + to_feed) % 2 ^ 16 };
        eng = b.recvrec_ack s.eng bytes;
        log = recvrec bytes ∷ s.log;
      }

  -- One turn of the loop, whose rest is `loop`.
  unfoldable pub feed_head : (Sys E → Sys E) → Sys E → List (List ℕ) → Sys E
  feed_head loop s [] = s
  feed_head loop s (head ∷ rest) =
      let m = measure s head in
      if b.recvrec_buf s.eng == 0 then m else loop (retire (feed_bytes m head) head rest)

  -- `while (rx_pend_n > 0)`, on fuel.
  unfoldable pub feed_loop : ℕ → Sys E → Sys E
  feed_loop zero s = s
  feed_loop (suc n) s = feed_head (λ t. feed_loop n t) s s.pcb.rx_pend

  unfoldable pub feed_pending : Sys E → Sys E
  feed_pending s = feed_loop (work s.pcb.rx_pend) s

-- `tcp_ssl_read` of a session that is found, before it schedules the engine: the pbuf is queued,
-- or freed when the queue is full.
unfoldable pub queue_pbuf : {E : Type 0} → Sys E → List ℕ → Bool × Sys E
queue_pbuf s pb =
    if leb rx_pend_max (length s.pcb.rx_pend)
    then (false, emit s (pbuf_free pb))
    else (true, record s { pcb = record s.pcb { rx_pend = s.pcb.rx_pend ++ (pb ∷ []) } })

unfoldable pub free_all : List (List ℕ) → List Call → List Call
free_all [] log = log
free_all (p ∷ ps) log = free_all ps (pbuf_free p ∷ log)

-- `tcp_ssl_free_rx_pend`
unfoldable pub free_rx_pend : {E : Type 0} → Sys E → Sys E
free_rx_pend s = record s {
  pcb = record s.pcb { rx_pend = []; rx_pend_head_off = 0 };
  log = free_all s.pcb.rx_pend s.log;
}
