-- ===== src/SecureClient.antt =====
-- The TLS session of ESP32 under its client's hooks: `runSSLHandshake`, `sslRead`, `write`,
-- `close` and `handshakeTimeoutElapsed` of src/AsyncSecureSession.cpp, and `SecureClientHooks` of
-- src/AsyncSecureClient.cpp. The calls of mbedTLS are parameters; they read the ciphertext through
-- `_lwip_ssl_recv`, so they take the receive buffer and give it back.
pub mod Recv
pub mod Late
pub mod Send
pub mod Begin
pub mod Start
pub mod Life
pub mod Reads
pub mod Tests
use async_tcp.Prelude.{
  ℕ, zero, suc, ◌+◌, ◌-◌, ◌%◌, ◌^◌, Bool, true, false, not, ◌&&◌, ◌||◌, Option, none, some, List,
  [], ◌∷◌, ltb, leb, ◌==◌, if◌then◌else◌, length,
}
use async_tcp.Session.Rx
use async_tcp.Session.Rx.{Bio, Allocator, Session, feed_rx}

-- What a call of mbedTLS answers: a result, MBEDTLS_ERR_SSL_WANT_READ or _WRITE, the end of the
-- connection, or another error.
pub data Answer (R : Type 0) : Type 0 where
  result : R → Answer R
  want : Answer R
  ended : Answer R
  failed : Answer R

-- mbedtls_ssl_handshake, mbedtls_ssl_read and mbedtls_ssl_write on a context `M`, and what
-- mbedtls_ssl_get_verify_result says: whether the flags are 0, and whether the text on them has
-- "skipped".
pub record Mbedtls (M : Type 0) : Type 0 where
  pub ssl_handshake : M → Option Bio → Answer Bool × M × Option Bio
  pub ssl_read : M → Option Bio → ℕ → Answer (List ℕ) × M × Option Bio
  pub ssl_write : M → Option Bio → List ℕ → Answer ℕ × M × Option Bio
  pub verified : M → Bool
  pub skipped : M → Bool

-- `AsyncSecureSession`, whether `_pcb` is set, and the client: whether it has its pcb and its
-- `_rx_last_packet`.
pub record Tls (M : Type 0) : Type 0 where
  pub ssl_ctx : M
  pub rx : Session
  pub has_pcb : Bool
  pub handshake_done : Bool
  pub handshake_start_time : ℕ
  pub have_ca_cert : Bool
  pub open_pcb : Bool
  pub last_rx : ℕ

-- What the hooks tell the client: onConnect, onData, onError, tcp_recved and close.
pub data Note : Type 0 where
  connect_event : Note
  data_event : List ℕ → Note
  error : ℕ → Note
  recved : ℕ → Note
  closed : Note

pub record Sys (M : Type 0) : Type 0 where
  pub tls : Tls M
  pub log : List Note

-- The clock, and the application: what its callbacks leave of the client.
pub record Env (M : Type 0) : Type 0 where
  pub mbedtls : Mbedtls M
  pub allocator : Allocator
  pub now : ℕ
  pub app : Note → Sys M → Sys M

-- How `runSSLHandshake` ends: 0, an error to retry, or another error.
pub data Shaken : Type 0 where
  done : Shaken
  retry : Shaken
  broken : Shaken

-- How the loop that reads ends: out of bytes, by the application's close, or with an error.
pub data Stop : Type 0 where
  drained : Stop
  left : Stop
  error_stop : Stop

abbrev pub handshake_timeout : ℕ
handshake_timeout = 10000

module _ {M : Type 0} (env : Env M) where
  -- A note to the application, which runs its callback.
  unfoldable pub notify : Sys M → Note → Sys M
  notify s n = env.app n (record s { log = n ∷ s.log })

  unfoldable pub set_tls : Sys M → Tls M → Sys M
  set_tls s t = record s { tls = t }

  -- `close`, by `onClosing` of the client's close.
  unfoldable pub close_client : Sys M → Sys M
  close_client s = record {
    tls = record s.tls { has_pcb = false; handshake_done = false; open_pcb = false };
    log = closed ∷ s.log;
  }

  unfoldable pub give_up : Sys M → ℕ → Sys M
  give_up s code = close_client (notify s (error code))

  -- now - start, on 32 bits
  unfoldable pub since : ℕ → ℕ
  since start = (env.now + 2 ^ 32 - start) % 2 ^ 32

  unfoldable pub handshake_timeout_elapsed : Tls M → Bool
  handshake_timeout_elapsed t =
      not (t.handshake_start_time == 0) && ltb handshake_timeout (since t.handshake_start_time)

  unfoldable pub refused : Tls M → Bool
  refused t =
      t.have_ca_cert && not (env.mbedtls.verified t.ssl_ctx) && not (env.mbedtls.skipped t.ssl_ctx)

  -- The certificate's verdict, once mbedTLS has finished.
  unfoldable pub verify : Sys M → Shaken × Sys M
  verify s =
      let t = s.tls in
      let over = set_tls s (record t { handshake_done = true }) in
      if refused t then (broken, s) else (done, notify over connect_event)

  unfoldable pub shake : Sys M → Answer Bool × M × Option Bio → Shaken × Sys M
  shake s (a, m, bio) =
      let t = record s.tls { ssl_ctx = m; rx = record s.tls.rx { bio = bio } } in
      let late = ltb handshake_timeout (since t.handshake_start_time) in
      elim a [
        | result ok ↦ verify (set_tls s t)
        | want ↦ (if late then broken else retry, set_tls s t)
        | ended ↦ (broken, set_tls s t)
        | failed ↦ (broken, set_tls s t)
      ]

  unfoldable pub start_clock : Tls M → Tls M
  start_clock t =
      if t.handshake_start_time == 0 then record t { handshake_start_time = env.now } else t

  -- `runSSLHandshake`
  unfoldable pub run_ssl_handshake : Sys M → Shaken × Sys M
  run_ssl_handshake s =
      let t = start_clock s.tls in
      let r = shake (set_tls s t) (env.mbedtls.ssl_handshake t.ssl_ctx t.rx.bio) in
      if s.tls.has_pcb then r else (broken, s)

  -- How `sslRead` ends: bytes, 0, or -1.
  unfoldable pub ssl_got : Sys M → Answer (List ℕ) × M × Option Bio → Option (List ℕ) × Sys M
  ssl_got s (a, m, bio) =
      let t = set_tls s (record s.tls { ssl_ctx = m; rx = record s.tls.rx { bio = bio } }) in
      elim a [
        | result bytes ↦ (some bytes, t)
        | want ↦ (some [], t)
        | ended ↦ (some [], t)
        | failed ↦ (none, t)
      ]

  -- `sslRead` into the hook's 1024 bytes.
  unfoldable pub ssl_read : Sys M → Option (List ℕ) × Sys M
  ssl_read s =
      let r = ssl_got s (env.mbedtls.ssl_read s.tls.ssl_ctx s.tls.rx.bio 1024) in
      if s.tls.has_pcb then r else (none, s)

  unfoldable pub read_turn : (Sys M → Stop × Sys M) → Option (List ℕ) × Sys M → Stop × Sys M
  read_turn loop (none, s) = (error_stop, s)
  read_turn loop (some [], s) = (drained, s)
  read_turn loop (some (x ∷ xs), s) =
      let t = notify s (data_event (x ∷ xs)) in
      let rest = loop t in if t.tls.open_pcb then rest else (left, t)

  -- `while ((n = sslRead(..)) > 0)`, on fuel.
  unfoldable pub read_loop : ℕ → Sys M → Stop × Sys M
  read_loop zero s = (drained, s)
  read_loop (suc n) s = read_turn (λ t. read_loop n t) (ssl_read s)

  unfoldable pub credit : ℕ × Session → Sys M → ℕ × Sys M
  credit (fed, rx) s =
      let t = set_tls s (record s.tls { rx = rx }) in
      (fed, if fed == 0 then t else record t { log = recved fed ∷ t.log })

  -- `feedRx`, with what it takes over acknowledged.
  unfoldable pub feed : Sys M → List (List ℕ) → ℕ × Sys M
  feed s pb = credit (feed_rx env.allocator s.tls.rx pb) s

  unfoldable pub second_pass : ℕ → ℕ × Sys M → Sys M
  second_pass fuel (fed, s) = if fed == 0 then s else (read_loop fuel s).1

  unfoldable pub after_reads : ℕ → Stop × Sys M → Sys M
  after_reads fuel (left, s) = s
  after_reads fuel (drained, s) = second_pass fuel (feed s [])
  after_reads fuel (error_stop, s) =
      if s.tls.open_pcb then give_up s 60 else second_pass fuel (feed s [])

  unfoldable pub after_handshake : Shaken × Sys M → Sys M
  after_handshake (done, s) = s
  after_handshake (retry, s) = s
  after_handshake (broken, s) = give_up s 60

  unfoldable pub recv_fed : ℕ → Sys M → Sys M
  recv_fed fuel s =
      if not s.tls.handshake_done
      then after_handshake (run_ssl_handshake s)
      else after_reads fuel (read_loop fuel s)

  -- `onRecv`; [] is the peer's FIN, and `fuel` bounds each loop.
  unfoldable pub on_recv : ℕ → Sys M → List (List ℕ) → Sys M
  on_recv fuel s [] = set_tls s (record s.tls { last_rx = env.now })
  on_recv fuel s (p ∷ ps) =
      recv_fed fuel (feed (set_tls s (record s.tls { last_rx = env.now })) (p ∷ ps)).1

  -- `onPoll`: whether the client's own poll is skipped.
  unfoldable pub on_poll : Sys M → Bool × Sys M
  on_poll s =
      if not s.tls.handshake_done && handshake_timeout_elapsed s.tls
      then (true, give_up s 61)
      else (false, s)

  unfoldable pub written : Sys M → Answer ℕ × M × Option Bio → ℕ × Sys M
  written s (a, m, bio) =
      let t = set_tls s (record s.tls { ssl_ctx = m; rx = record s.tls.rx { bio = bio } }) in
      elim a [ result n ↦ (n, t) | want ↦ (0, t) | ended ↦ (0, t) | failed ↦ (0, t) ]

  -- `onWrite`, with none for -1.
  unfoldable pub on_write : Sys M → List ℕ → Option ℕ × Sys M
  on_write s bytes =
      let r = written s (env.mbedtls.ssl_write s.tls.ssl_ctx s.tls.rx.bio bytes) in
      let t = if s.tls.has_pcb then r else (0, s) in
      if not s.tls.handshake_done then (none, s) else (some t.0, t.1)
