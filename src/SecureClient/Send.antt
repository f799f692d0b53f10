-- ===== src/SecureClient/Send.antt =====
-- `_lwip_ssl_send` of src/AsyncSecureSession.cpp (ESP32), the callback through which mbedTLS writes
-- its records, and the retries of mbedTLS over it; and `_lwip_ssl_recv`, through which it reads.
use async_tcp.Session.Rx.{Bio, has_rx_data, read}
use async_tcp.Session.Rx.Content.{IsValid, content, length-content}
use async_tcp.Session.Rx.Feed.{take_out-content}
use async_tcp.Prelude.{
  ℕ, zero, suc, ◌<◌, ltb, arith, Option, none, some, if_holds, ◌≡◌, ap, ◌∙◌, Bool, true, false,
  List, [], ◌∷◌, ◌++◌, length, if◌then◌else◌, append_assoc, append-nil,
}

-- What tcp_write and tcp_output answer: ERR_OK, ERR_MEM or another error.
pub data Err : Type 0 where
  err_ok err_mem err_other : Err

-- The length, MBEDTLS_ERR_SSL_WANT_WRITE, or MBEDTLS_ERR_NET_SEND_FAILED.
pub data Sent : Type 0 where
  bytes_sent : ℕ → Sent
  want_write : Sent
  send_failed : Sent

abbrev pub is_ok : Err → Bool
is_ok err_ok = true
is_ok err_mem = false
is_ok err_other = false

-- What tcp_output's answer gives, for a record of n bytes.
unfoldable pub after_output : ℕ → Err → Sent
after_output n err_ok = bytes_sent n
after_output n err_mem = want_write
after_output n err_other = send_failed

-- The answer, and the bytes that tcp_write has queued on the connection.
unfoldable pub lwip_ssl_send : Bool → Err → Err → List ℕ → List ℕ → Sent × List ℕ
lwip_ssl_send has_pcb write output queued buf =
    if has_pcb
    then (if is_ok write
        then (after_output (length buf) output, queued ++ buf)
        else (send_failed, queued))
    else (send_failed, queued)

abbrev pub wants_write : Sent → Bool
wants_write (bytes_sent n) = false
wants_write want_write = true
wants_write send_failed = false

-- mbedTLS offers the record that it holds again after MBEDTLS_ERR_SSL_WANT_WRITE, while lwIP has
-- the answers that are listed: the last answer, and the bytes queued.
abbrev pub flush : List (Err × Err) → List ℕ → List ℕ → Sent × List ℕ
flush [] queued buf = (want_write, queued)
flush ((write, output) ∷ answers) queued buf =
    let r = lwip_ssl_send true write output queued buf in
    let rest = flush answers r.1 buf in if wants_write r.0 then rest else r

-- n refusals of tcp_output for want of memory, and then none.
abbrev pub short_of_memory : ℕ → List (Err × Err)
short_of_memory zero = (err_ok, err_ok) ∷ []
short_of_memory (suc n) = (err_ok, err_mem) ∷ short_of_memory n

abbrev pub copies : ℕ → List ℕ → List ℕ
copies zero buf = []
copies (suc n) buf = buf ++ copies n buf

-- On ESP32, when lwIP queues a record and then has no memory to send it, n times, before it does
-- send it, and mbedTLS offers the record again after each MBEDTLS_ERR_SSL_WANT_WRITE, as many
-- copies as there were offers are queued, and the last answer is the record's length.
pub flush-copies :
    (n : ℕ) (queued buf : List ℕ)
    → flush (short_of_memory n) queued buf ≡ (bytes_sent (length buf), queued ++ copies (suc n) buf)
unfolding lwip_ssl_send after_output
flush-copies zero queued buf = rw append-nil
flush-copies (suc n) queued buf =
    flush-copies n (queued ++ buf) buf
    ∙ ap (λ q. (bytes_sent (length buf), q)) (append_assoc queued buf (copies (suc n) buf))

-- `_lwip_ssl_recv`: the bytes that are read, or none for MBEDTLS_ERR_SSL_WANT_READ.
unfoldable pub lwip_ssl_recv : Option Bio → ℕ → Option (List ℕ) × Option Bio
lwip_ssl_recv bio n =
    let (bytes, left) = read bio n in if has_rx_data bio then (some bytes, left) else (none, bio)

-- What a read of a buffer with the bytes `unread` may answer: never 0, which mbedTLS takes for the
-- end of the connection.
abbrev Answered : List ℕ → Option (List ℕ) → Type 0
Answered unread none = length unread ≡ 0
Answered unread (some bytes) = 0 < length bytes

lwip_ssl_recv-Answered :
    (b : Bio) (n : ℕ) → IsValid b → 0 < n → Answered (content b) (lwip_ssl_recv (some b) n).0
unfolding lwip_ssl_recv has_rx_data read
lwip_ssl_recv-Answered b n v h =
    let size = length-content b v in
    if_holds (λ (r : Option (List ℕ) × Option Bio). Answered (content b) r.0) (ltb b.pos b.len) _ _
      (λ e. ground (arith, e, size, (take_out-content b v n).1)) (λ e. ground (arith, e, size))
