-- ===== src/Client/Api.antt =====
-- The public methods of AsyncClientImpl (src/AsyncTCP.cpp).
use async_tcp.Prelude.{
  ℕ, ◌+◌, ◌-◌, Bool, true, false, ◌&&◌, ◌||◌, not, Option, none, some, List, [], ◌∷◌, ◌==◌, ltb,
  if◌then◌else◌, length, map,
}
use async_tcp.Client.State.{
  Sys, Context, Hooks, Env, bind, do_abort, dial, look_up, told_disconnect, told_server, told_error,
  log, tell, is_valid_at, drop_to, fresh_context, err_ok, err_conn, err_abrt, err_inprogress,
}
use async_tcp.Client.Transport.{
  tcp_output, tcp_write, tcp_recved, tcp_close, tcp_abort, reset_tcp_callbacks,
}

-- Bytes of the callbacks that are running, not acknowledged yet.
abbrev pub pending_acks : List Context → ℕ
pending_acks [] = 0
pending_acks (c ∷ cs) = c.ack_len + pending_acks cs

-- `if (_tls_client_hooks && _pcb) _tls_client_hooks->onClosing(this)`
unfoldable pub closing_with : Option Hooks → Sys → Sys
closing_with none s = s
closing_with (some h) s = if s.pcb == 0 then s else h.on_closing s

abbrev pub closing_hook : Env → Sys → Sys
closing_hook e s = closing_with e.hooks s

-- The callbacks of `_close` after the transport's answer.
unfoldable pub tell_closed : Env → ℕ × Sys → ℕ × Sys
tell_closed e (err, s) =
    let told = tell e.server_discard_cb told_server (tell e.discard_cb told_disconnect s) in
    (err, if err == err_ok then told else s)

-- `_close`.
unfoldable pub close_transport : Env → Sys → ℕ × Sys
close_transport e s = tell_closed e (tcp_close e (closing_hook e s))

-- The acknowledgement that `close` makes before it closes.
unfoldable pub ack_pending : Sys → Sys
ack_pending s =
    let pending = s.rx_ack_len + pending_acks s.cb_ctx in
    let cleared = record s { client = record s.client { rx_ack_len = 0 } } in
    if s.pcb == 0 then s else (if pending == 0 then cleared else (tcp_recved pending cleared).1)

abbrev pub drop_token : Sys → Sys
drop_token s = record s { client = record s.client { dns_token = 0 } }

unfoldable pub close : Env → Sys → Sys
close e s = (close_transport e (ack_pending (drop_token s))).1

abbrev pub set_contexts : Sys → List Context → Sys
set_contexts s cs = record s { client = record s.client { cb_ctx = cs } }

-- `_error`. The context of the call is the one with d others below it.
unfoldable pub error : Env → ℕ → Sys → Sys
error e err s =
    let d = length s.cb_ctx in
    let entered = set_contexts s (fresh_context ∷ s.cb_ctx) in
    let told : Sys = elim e.error_cb [
      | none ↦ entered
      | some f ↦ f err (log (told_error err) entered)
    ] in
    let left = set_contexts told (drop_to d told.cb_ctx) in
    if is_valid_at d told.cb_ctx
    then tell e.server_discard_cb told_server (tell e.discard_cb told_disconnect left)
    else told

-- `abort`, on the error code of the transport.
unfoldable pub abort_with : Env → (Sys → ℕ × Sys) → Sys → ℕ × Sys
abort_with e transport s =
    let (err, t) = transport (closing_hook e (drop_token s)) in
    (err, if err == err_conn then t else error e err_abrt t)

unfoldable pub abort : Env → Sys → ℕ × Sys
abort e s = abort_with e tcp_abort s

-- ESTABLISHED is 4 and CLOSE_WAIT is 7 in lwIP's `tcp_state`.
unfoldable pub space : Env → Sys → ℕ
space e s =
    if not (s.pcb == 0) && ((e.pcb_state s s.pcb == 4) || (e.pcb_state s s.pcb == 7))
    then e.sndbuf s s.pcb
    else 0

-- The plain write of `add`: the bytes taken.
unfoldable pub add_plain : Env → ℕ → ℕ → Sys → ℕ × Sys
add_plain e will_send flags s =
    let (err, t) = tcp_write e will_send flags s in if err == err_ok then (will_send, t) else (0, t)

-- The write of `add`, with or without TLS. `on_write` gives `none` for a negative result.
unfoldable pub add_with : Env → Option Hooks → ℕ → ℕ → ℕ → Sys → ℕ × Sys
add_with e none size will_send flags s = add_plain e will_send flags s
add_with e (some h) size will_send flags s =
    let (n, t) = h.on_write size s in
    elim n [ none ↦ add_plain e will_send flags t | some m ↦ (m, t) ]

-- `null` says that `data` is NULL.
unfoldable pub add : Env → Bool → ℕ → ℕ → Sys → ℕ × Sys
add e null size flags s =
    let room = space e s in
    let will_send = if ltb room size then room else size in
    if (s.pcb == 0) || ((size == 0) || (null || (room == 0)))
    then (0, s)
    else add_with e e.hooks size will_send flags s

unfoldable pub send : Env → Sys → Bool × Sys
send e s =
    let stamped = record s { client = record s.client { tx_last_packet = s.now } } in
    let (err, t) = tcp_output e stamped in
    if err == err_ok
    then (true, t)
    else (false, record t { client = record t.client { tx_last_packet = s.tx_last_packet } })

unfoldable pub write : Env → Bool → ℕ → ℕ → Sys → ℕ × Sys
write e null size flags s =
    let (will_send, t) = add e null size flags s in
    let (sent, u) = send e t in
    if will_send == 0 then (0, t) else (if sent then (will_send, u) else (0, u))

unfoldable pub ack : ℕ → Sys → ℕ × Sys
ack len s =
    let n = if ltb s.rx_ack_len len then s.rx_ack_len else len in
    let acked = if n == 0 then s else (tcp_recved n s).1 in
    (n, record acked { client = record acked.client { rx_ack_len = acked.rx_ack_len - n } })

pub mark_later : Context → Context
mark_later c = record c { ack_later = true }

unfoldable pub ack_later : Sys → Sys
unfolding mark_later
ack_later s = set_contexts s (map mark_later s.cb_ctx)

-- `connect(ip_addr_t, uint16_t)`, when the async task runs.
unfoldable pub connect : Env → ℕ → ℕ → Sys → Bool × Sys
connect e addr port s0 =
    let s = drop_token s0 in
    let pcb = e.tcp_new s in
    let dialled = log (dial pcb addr port) (log (bind pcb) s) in
    let failed =
      log (do_abort pcb)
        (reset_tcp_callbacks (record dialled { client = record dialled.client { pcb = pcb } })) in
    if not (s.pcb == 0)
    then (false, s)
    else (if pcb == 0
        then (false, s)
        else (if e.tcp_connect dialled == err_ok
            then (true, dialled)
            else (false, record failed { client = record failed.client { pcb = 0 } })))

-- `connect(const char *, uint16_t)` on the lookup's error code and, for ERR_OK, its answer.
unfoldable pub connect_found : Env → ℕ → Sys → ℕ × ℕ → Bool × Sys
connect_found e port s (err, addr) =
    let waiting = record s { client = record s.client { connect_port = port } } in
    if err == err_ok
    then connect e addr port s
    else (if err == err_inprogress then (true, waiting) else (false, s))

-- `connect(const char *, uint16_t)`; `allocated` says whether there is memory for the lookup.
unfoldable pub connect_host : Env → Bool → ℕ → Sys → Bool × Sys
connect_host e allocated port s =
    let token = e.new_token s in
    let minted = record s { client = record s.client { dns_token = token } } in
    let asked = log (look_up token) minted in
    if allocated then connect_found e port asked (e.gethostbyname asked) else (false, minted)
