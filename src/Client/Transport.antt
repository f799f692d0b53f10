-- ===== src/Client/Transport.antt =====
-- The wrappers of the lwIP calls in src/AsyncTCP.cpp. On ESP32 each goes through `tcpip_api_call`
-- to a function of the same name ending in `_api`; the two are one function here. The core lock
-- makes a wrapper one step.
use async_tcp.Prelude.{ℕ, ◌==◌, if◌then◌else◌}
use async_tcp.EventQueue.{remove_events_for_client}
use async_tcp.Client.State.{
  Sys, Env, unbind, do_close, do_abort, output, recved, write, log, err_ok, err_conn, err_abrt,
}

-- `_tcp_output`, `_tcp_write` and `_tcp_recved`: the error code and the state.
unfoldable pub tcp_output : Env → Sys → ℕ × Sys
tcp_output e s = if s.pcb == 0 then (err_conn, s) else (e.tcp_output s, log (output s.pcb) s)

unfoldable pub tcp_write : Env → ℕ → ℕ → Sys → ℕ × Sys
tcp_write e len flags s =
    if s.pcb == 0 then (err_conn, s) else (e.tcp_write s len, log (write s.pcb len flags) s)

unfoldable pub tcp_recved : ℕ → Sys → ℕ × Sys
tcp_recved len s = if s.pcb == 0 then (err_conn, s) else (err_ok, log (recved s.pcb len) s)

-- `_remove_events_for_client` for this client.
unfoldable pub purge_events : Sys → ℕ × Sys
purge_events s = let (n, q) = remove_events_for_client s.self s.queue in (n, record s { queue = q })

-- `_reset_tcp_callbacks`.
unfoldable pub reset_tcp_callbacks : Sys → Sys
unfolding purge_events
reset_tcp_callbacks s = (purge_events (log (unbind s.pcb) s)).1

abbrev detach : Sys → Sys
detach s = record s { client = record s.client { pcb = 0 } }

-- The pcb is closed, or aborted where lwIP refuses to close it.
unfoldable pub close_pcb : Env → Sys → Sys
close_pcb e s =
    let closed = log (do_close s.pcb) s in
    if e.tcp_close s == err_ok then closed else log (do_abort s.pcb) closed

-- `_tcp_close`.
unfoldable pub tcp_close : Env → Sys → ℕ × Sys
unfolding reset_tcp_callbacks
tcp_close e s =
    let (n, purged) = purge_events s in
    if s.pcb == 0
    then (if n == 0 then (err_conn, purged) else (err_ok, purged))
    else (err_ok, detach (close_pcb e (reset_tcp_callbacks s)))

-- `_tcp_abort`, the ESP8266 version.
unfoldable pub tcp_abort_no_sys : Sys → ℕ × Sys
unfolding reset_tcp_callbacks
tcp_abort_no_sys s =
    let (n, purged) = purge_events s in
    if s.pcb == 0
    then (if n == 0 then (err_conn, purged) else (err_ok, purged))
    else (err_abrt, detach (log (do_abort s.pcb) (reset_tcp_callbacks s)))

-- `_tcp_abort`, the version for the others: its first test returns before the queue is purged.
unfoldable pub tcp_abort : Sys → ℕ × Sys
unfolding reset_tcp_callbacks
tcp_abort s =
    if s.pcb == 0
    then (err_conn, s)
    else (err_abrt, detach (log (do_abort s.pcb) (reset_tcp_callbacks s)))
