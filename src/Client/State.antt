-- ===== src/Client/State.antt =====
-- The state of a client, and what it takes from its surroundings.
use async_tcp.Prelude.{
  ℕ, Bool, true, false, Option, none, some, List, [], ◌∷◌, ◌++◌, ◌==◌, if◌then◌else◌, length,
}
use async_tcp.EventQueue.{Queue}

-- Absolute values of lwIP's error codes.
abbrev pub err_ok : ℕ
err_ok = 0

abbrev pub err_inprogress : ℕ
err_inprogress = 5

abbrev pub err_conn : ℕ
err_conn = 11

abbrev pub err_abrt : ℕ
err_abrt = 13

-- `AsyncClientCallbackContext`.
pub record Context : Type 0 where
  pub client_is_valid : Bool
  pub ack_later : Bool
  pub ack_len : ℕ

-- What a client does to the world, in order: its calls of lwIP, and the application's callbacks
-- that it runs. `unbind` stands for the five calls that clear a pcb's argument and handlers.
pub data Call : Type 0 where
  bind unbind do_close do_abort output : (pcb : ℕ) → Call
  recved : (pcb len : ℕ) → Call
  write : (pcb len flags : ℕ) → Call
  dial : (pcb addr port : ℕ) → Call
  look_up : (token : ℕ) → Call
  free_pbuf : (pb : List ℕ) → Call
  told_connect told_disconnect told_server told_poll : Call
  told_error : (err : ℕ) → Call
  told_data told_packet : (len : ℕ) → Call
  told_ack : (len time : ℕ) → Call
  told_timeout : (time : ℕ) → Call

-- The fields of an AsyncClientImpl; `self` is its address. `dns_token` is 0 when there is none.
-- The callback contexts on the stack are listed innermost first. Times are uint32_t.
pub record Client : Type 0 where
  pub self : ℕ
  pub pcb : ℕ
  pub facade : ℕ
  pub cb_ctx : List Context
  pub rx_ack_len : ℕ
  pub rx_timeout : ℕ
  pub rx_last_ack : ℕ
  pub rx_last_packet : ℕ
  pub tx_last_packet : ℕ
  pub ack_timeout : ℕ
  pub connect_port : ℕ
  pub dns_token : ℕ
  pub dead : Bool

-- A client with the event queue, the calls made so far and the time, `millis()`.
pub record Sys : Type 0 where
  pub client : Client
  pub open client use *
  pub queue : Queue
  pub calls : List Call
  pub now : ℕ

-- TLS hooks of a client. What they return and do is theirs.
pub record Hooks : Type 0 where
  pub on_connected : Sys → Bool × Sys
  pub on_recv : List ℕ → Sys → Bool × Sys
  pub on_sent : ℕ → Sys → Bool × Sys
  pub on_poll : Sys → Bool × Sys
  pub on_write : ℕ → Sys → Option ℕ × Sys
  pub on_closing : Sys → Sys
  pub on_error : ℕ → Sys → Sys

-- lwIP's answers, and the application's callbacks, each null or a function that may do anything.
-- `tcp_new` gives a new pcb or 0; `new_token` is an address in use by no other token.
pub record Env : Type 0 where
  pub pcb_state : Sys → ℕ → ℕ
  pub sndbuf : Sys → ℕ → ℕ
  pub tcp_write : Sys → ℕ → ℕ
  pub tcp_output : Sys → ℕ
  pub tcp_close : Sys → ℕ
  pub tcp_connect : Sys → ℕ
  pub tcp_new : Sys → ℕ
  pub gethostbyname : Sys → ℕ × ℕ
  pub new_token : Sys → ℕ
  pub hooks : Option Hooks
  pub connect_cb : Option (Sys → Sys)
  pub discard_cb : Option (Sys → Sys)
  pub server_discard_cb : Option (Sys → Sys)
  pub sent_cb : Option (ℕ → ℕ → Sys → Sys)
  pub error_cb : Option (ℕ → Sys → Sys)
  pub recv_cb : Option (ℕ → Sys → Sys)
  pub pb_cb : Option (ℕ → Sys → Sys)
  pub timeout_cb : Option (ℕ → Sys → Sys)
  pub poll_cb : Option (Sys → Sys)

abbrev pub log : Call → Sys → Sys
log c s = record s { calls = s.calls ++ c ∷ [] }

-- A callback is run if it is set.
abbrev pub tell : Option (Sys → Sys) → Call → Sys → Sys
tell none c s = s
tell (some f) c s = f (log c s)

-- The callback context with d others below it on the stack.
abbrev pub context_at : ℕ → List Context → Option Context
context_at d [] = none
context_at d (c ∷ cs) = if length cs == d then some c else context_at d cs

abbrev pub set_context : ℕ → Context → List Context → List Context
set_context d v [] = []
set_context d v (c ∷ cs) = if length cs == d then v ∷ cs else c ∷ set_context d v cs

abbrev pub drop_to : ℕ → List Context → List Context
drop_to d [] = []
drop_to d (c ∷ cs) = if length cs == d then cs else drop_to d cs

abbrev pub is_valid_at : ℕ → List Context → Bool
is_valid_at d cs = elim (context_at d cs) [ none ↦ false | some c ↦ c.client_is_valid ]

abbrev pub fresh_context : Context
fresh_context = record { client_is_valid = true; ack_later = false; ack_len = 0 }
