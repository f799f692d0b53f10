-- ===== src/Engine/Admit.antt =====
-- The TLS server of ESP8266 (src/AsyncSecureServer.cpp): `onAccept`, `_acceptTls` and `_serveTls`
-- of SecureServerHooks on the list of sessions.
pub mod Bounded
use async_tcp.Prelude.{
  ℕ, Bool, true, false, not, ◌||◌, ◌&&◌, List, [], ◌∷◌, ◌++◌, ltb, leb, ◌==◌, if◌then◌else◌, Option,
  none, some,
}
use async_tcp.Engine.Registry.{
  Registry, Answers, tcp_ssl_client_count, tcp_ssl_new_server, tcp_ssl_free,
}

-- SSL_MAX_CONNECTIONS, SSL_PRESSURE_FLOOR, and SSL_SERVE_BLOCK with its defaults: a receive buffer
-- of 2048 bytes and a ring of one slot of two segments of 536.
abbrev pub ssl_max_connections : ℕ
ssl_max_connections = 1

abbrev pub ssl_pressure_floor : ℕ
ssl_pressure_floor = 10500

abbrev pub ssl_serve_block : ℕ
ssl_serve_block = 3120

pub data Call : Type 0 where
  tcp_close : ℕ → Bool → Call
  tcp_abort : ℕ → Call
  nagle_disable : ℕ → Call

-- The list of sessions and the calls of lwIP so far, the last one first.
pub record Server : Type 0 where
  pub sessions : Registry
  pub calls : List Call

-- What is found at an accept: the heap, whether the server has a context and a connect handler,
-- the allocations of the client, its session and its hooks, the answers on the start of the
-- session, and whether lwIP can close a pcb after the calls so far.
pub record Found : Type 0 where
  pub has_ctx : Bool
  pub has_handler : Bool
  pub free_heap : ℕ
  pub max_block : ℕ
  pub client : Bool
  pub session : Bool
  pub hooks : Bool
  pub start : Answers
  pub closes : List Call → Bool

module _ (f : Found) where
  unfoldable pub log : Server → Call → Server
  log s c = record s { calls = c ∷ s.calls }

  -- tcp_close, or else tcp_abort. It is also what `~AsyncClient` does with the client's pcb.
  unfoldable pub drop_pcb : Server → ℕ → Server
  drop_pcb s pcb =
      let ok = f.closes s.calls in
      let t = log s (tcp_close pcb ok) in if ok then t else log t (tcp_abort pcb)

  -- `delete c`, and the close that follows it.
  unfoldable pub delete_client : Server → ℕ → Server
  delete_client s pcb = drop_pcb (drop_pcb s pcb) pcb

  -- `~AsyncSecureSession` frees the session of its pcb.
  unfoldable pub delete_session : Server → ℕ → Server
  delete_session s pcb = record s { sessions = (tcp_ssl_free s.sessions pcb).1 }

  unfoldable pub started : Bool × Registry → Server → ℕ → Bool × Server
  started (false, r) s pcb = (false, delete_client (record s { sessions = r }) pcb)
  started (true, r) s pcb =
      let t = record s { sessions = r } in
      if f.hooks
      then (true, log t (nagle_disable pcb))
      else (false, delete_client (delete_session t pcb) pcb)

  -- `_serveTls`: whether a client came out of it. `address` is where its session lies.
  unfoldable pub serve_tls : Server → ℕ → ℕ → Bool × Server
  serve_tls s pcb address =
      let begun = started (tcp_ssl_new_server f.start s.sessions (some pcb) true address) s pcb in
      if leb ssl_max_connections (tcp_ssl_client_count s.sessions)
      then (false, drop_pcb s pcb)
      else (if f.client
          then (if f.session then begun else (false, delete_client s pcb))
          else (false, drop_pcb s pcb))

  unfoldable pub need_park : Server → Bool
  need_park s =
      leb ssl_max_connections (tcp_ssl_client_count s.sessions)
      || ltb f.free_heap ssl_pressure_floor
      || ltb f.max_block ssl_serve_block

  -- `_acceptTls`: ERR_OK, ERR_ABRT as its absolute value 13, or none for the plain accept.
  unfoldable pub accept_tls : Server → ℕ → ℕ → Option ℕ × Server
  accept_tls s pcb address =
      let served = (serve_tls s pcb address).1 in
      if not f.has_ctx
      then (none, s)
      else (if not f.has_handler
          then (some 0, drop_pcb s pcb)
          else (if need_park s then (some 13, log s (tcp_abort pcb)) else (some 0, served)))

  -- `onAccept`
  unfoldable pub on_accept : Server → ℕ → ℕ → Option ℕ × Server
  on_accept s pcb address =
      accept_tls (if f.has_ctx then log s (nagle_disable pcb) else s) pcb address
