-- ===== src/Session/Rx.antt =====
-- The receive side of AsyncSecureSession (src/AsyncSecureSession.cpp, ESP32): `feedRxData`,
-- `feedRx`, `read` and `hasRxData`. A buffer is a list of bytes whose length is the allocated
-- size, a pbuf is its payload and a chain a list of pbufs. Sizes are natural numbers: every
-- subtraction below is one of `size_t` whose operands the invariant of Rx/Content orders.
pub mod Content
pub mod Feed
pub mod Stream
mod Tests
use async_tcp.Prelude.{
  ℕ, ◌+◌, ◌-◌, ◌≤◌, ◌≡◌, Bool, true, false, ◌&&◌, Option, none, some, List, [], ◌∷◌, ◌++◌, ltb, leb,
  ◌==◌, if◌then◌else◌, length, take, drop, min,
}

-- SSL_RX_BUF_MAX.
abbrev pub rx_buf_max : ℕ
rx_buf_max = 8192

-- `_ssl_rx_buf`, when it is not null, with `_ssl_rx_buf_capacity`, `_ssl_rx_buf_len` and
-- `_ssl_rx_pos`. When the constructor's malloc fails the buffer is null, which is `none` below,
-- and the three numbers stay 0.
pub record Bio : Type 0 where
  pub buf : List ℕ
  pub capacity : ℕ
  pub len : ℕ
  pub pos : ℕ

-- The C library's `realloc`. On success the new block has the size asked for, and the old bytes
-- that fit are kept.
pub record Allocator : Type 0 where
  pub realloc : List ℕ → ℕ → Option (List ℕ)
  pub realloc_size : (b : List ℕ) (n : ℕ) (c : List ℕ) → realloc b n ≡ some c → length c ≡ n
  pub realloc_keeps :
      (b : List ℕ) (n : ℕ) (c : List ℕ)
      → realloc b n ≡ some c
      → take (min (length b) n) c ≡ take n b

-- memmove(buf, buf + pos, n)
abbrev memmove_front : List ℕ → ℕ → ℕ → List ℕ
memmove_front buf pos n = take n (drop pos buf) ++ drop n buf

-- memcpy(buf + at, bytes, n), n the number of bytes.
abbrev memcpy_at : List ℕ → ℕ → List ℕ → List ℕ
memcpy_at buf at bytes = take at buf ++ (bytes ++ drop (at + length bytes) buf)

-- The unread bytes go to the front when the tail has no room for `n` more.
pub compact : Bio → ℕ → Bio
compact b n =
    if ltb (b.capacity - b.len) n && ltb 0 b.pos
    then (record b {
      buf = if ltb 0 (b.len - b.pos) then memmove_front b.buf b.pos (b.len - b.pos) else b.buf;
      len = b.len - b.pos;
      pos = 0;
    })
    else b

pub put : Bio → List ℕ → Bio
put b bytes = record b { buf = memcpy_at b.buf b.len bytes; len = b.len + length bytes }

-- The hard cap, the growth of the buffer and the copy.
pub store : Allocator → Bio → List ℕ → Bool × Bio
store a b bytes =
    if ltb rx_buf_max (b.len + length bytes)
    then (false, b)
    else (if ltb (b.capacity - b.len) (length bytes)
        then (elim (a.realloc b.buf (b.len + length bytes)) [
          | none ↦ (false, b)
          | some newbuf ↦
              (true, put (record b { buf = newbuf; capacity = b.len + length bytes }) bytes)
        ])
        else (true, put b bytes))

wrap : Bool × Bio → Bool × Option Bio
wrap (done, b) = (done, some b)

-- `feedRxData` with a buffer.
pub feed : Allocator → Bio → List ℕ → Bool × Bio
feed a b bytes = if length bytes == 0 then (true, b) else store a (compact b (length bytes)) bytes

-- With no buffer the bytes are taken and dropped.
pub feed_rx_data : Allocator → Option Bio → List ℕ → Bool × Option Bio
unfolding wrap
feed_rx_data a none bytes = (true, none)
feed_rx_data a (some b) bytes = wrap (feed a b bytes)

-- `_ssl_rx_buf` and `_pending_pbufs`.
pub record Session : Type 0 where
  pub bio : Option Bio
  pub pending_pbufs : List (List ℕ)

-- The loop of `feedRx`: the count of bytes that the caller acknowledges, and the session.
unfoldable pub drain : Allocator → Option Bio → List (List ℕ) → ℕ → ℕ × Session
drain a b [] total = (total, record { bio = b; pending_pbufs = [] })
drain a b (p ∷ ps) total =
    let (fed, b') = feed_rx_data a b p in
    let rest = drain a b' ps (total + length p) in
    if fed then rest else (total, record { bio = b'; pending_pbufs = p ∷ ps })

-- `pb` is [] for NULL, which only retries the held chain.
unfoldable pub feed_rx : Allocator → Session → List (List ℕ) → ℕ × Session
feed_rx a s pb = drain a s.bio (s.pending_pbufs ++ pb) 0

unfoldable pub has_rx_data : Option Bio → Bool
has_rx_data none = false
has_rx_data (some b) = ltb b.pos b.len

pub advance : Bio → ℕ → Bio
advance b copy =
    if leb b.len (b.pos + copy)
    then record b { len = 0; pos = 0 }
    else record b { pos = b.pos + copy }

-- `read` with a buffer: the bytes copied out, whose number is the value returned.
pub take_out : Bio → ℕ → List ℕ × Bio
take_out b n =
    let avail = b.len - b.pos in
    let copy = if ltb avail n then avail else n in
    if leb b.len b.pos then ([], b) else (take copy (drop b.pos b.buf), advance b copy)

abbrev pub wrap_bytes : List ℕ × Bio → List ℕ × Option Bio
wrap_bytes (bytes, b) = (bytes, some b)

unfoldable pub read : Option Bio → ℕ → List ℕ × Option Bio
read none n = ([], none)
read (some b) n = wrap_bytes (take_out b n)
