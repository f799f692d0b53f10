-- ===== src/Engine/Model.antt =====
-- The state of a BearSSL session (`tcp_ssl_pcb`, src/AsyncSecureSession.h) and what it runs on:
-- the BearSSL engine, lwIP, the scheduler and the callbacks, which are parameters.
use async_tcp.Prelude.{ℕ, Bool, List, ◌∷◌}
use async_tcp.Engine.Ring.{Ring}

-- EnginePumpState
pub data Pump : Type 0 where
  idle : Pump
  dropped : Pump
  queued : Pump

-- `rx_pend` is the list of the pbufs queued, each the bytes of its chain; `rx_pend_n` is its
-- length. `on_data`, `on_handshake` and `on_error` say whether the callback is set.
pub record Pcb : Type 0 where
  pub is_server : Bool
  pub handshake_done : Bool
  pub sendrec_deferred : Bool
  pub hard_defer_start : ℕ
  pub body_started : Bool
  pub engine_pump_state : Pump
  pub inbuf_cap : ℕ
  pub rx_pend : List (List ℕ)
  pub rx_pend_head_off : ℕ
  pub max_rec_len : ℕ
  pub ring : Ring
  pub on_data : Bool
  pub on_handshake : Bool
  pub on_error : Bool

-- br_ssl_engine_current_state
pub record State : Type 0 where
  pub closed : Bool
  pub sendrec : Bool
  pub recvrec : Bool
  pub sendapp : Bool
  pub recvapp : Bool

-- The calls of the engine. A buffer that the engine hands out for reading is its bytes, with []
-- for a null one, and one for writing its size; `recvrec_ack` and `sendapp_ack` take the bytes
-- that the caller has copied into it. `fresh` is `ixa == 0 && ixb == 0`.
pub record Bearssl (E : Type 0) : Type 0 where
  pub current_state : E → State
  pub last_error : E → ℕ
  pub fresh : E → Bool
  pub recvrec_buf : E → ℕ
  pub recvrec_ack : E → List ℕ → E
  pub recvapp_buf : E → List ℕ
  pub recvapp_ack : E → ℕ → E
  pub sendapp_buf : E → ℕ
  pub sendapp_ack : E → List ℕ → E
  pub sendrec_buf : E → List ℕ
  pub sendrec_ack : E → ℕ → E
  pub flush : E → E
  pub close : E → E

-- The calls that leave the session, with the bytes given to the engine's receive side. `write`
-- and `write_copy`, which is one with TCP_WRITE_FLAG_COPY, carry whether lwIP took the bytes,
-- `schedule` whether the scheduler took the function. `sent_event` is lwIP's report of bytes
-- acknowledged, which stands in the log with them.
pub data Call : Type 0 where
  recvrec : List ℕ → Call
  tcp_recved : ℕ → Call
  pbuf_free : List ℕ → Call
  write : List ℕ → Bool → Call
  write_copy : List ℕ → Bool → Call
  sendrec_ack : ℕ → Call
  tcp_output : Call
  schedule : Bool → Call
  data_event : List ℕ → Call
  handshake_event : Call
  error_event : ℕ → Call
  sent_event : ℕ → Call

-- A live session, its engine, and the calls made so far, the last one first.
pub record Sys (E : Type 0) : Type 0 where
  pub pcb : Pcb
  pub eng : E
  pub log : List Call

-- lwIP, the clock and the scheduler, whose answers depend on what happened before.
-- `snd_queuelen` is TCP_SND_QUEUELEN.
pub record Host : Type 0 where
  pub sndbuf : List Call → ℕ
  pub sndqueuelen : List Call → ℕ
  pub snd_queuelen : ℕ
  pub accepts : List Call → List ℕ → Bool
  pub millis : List Call → ℕ
  pub schedules : List Call → Bool

unfoldable pub emit : {E : Type 0} → Sys E → Call → Sys E
emit s c = record s { log = c ∷ s.log }
