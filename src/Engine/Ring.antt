-- ===== src/Engine/Ring.antt =====
-- The ring of outbound TLS records (src/AsyncSecureSession.cpp, ESP8266): the part of
-- `process_ssl_engine` that copies a record into a slot and writes it, and the release loop of
-- `tcp_ssl_sent`. `copied` is what the last memcpy copied into a slot, and not what is in memory:
-- slot 0 is the engine's output buffer, `outbuf`, and the engine writes its next record there.
pub mod Window
pub mod Account
pub mod Write
pub mod Reachable
pub mod Release
use async_tcp.Prelude.{
  ℕ, zero, suc, ◌+◌, ◌-◌, ◌%◌, ◌^◌, Bool, true, false, List, [], leb, ◌==◌, if◌then◌else◌, length,
}

-- `copied`, `out_ring_len`, `out_ring_next`, `out_ring_pinned` and `out_ring_acked`.
pub record Ring : Type 0 where
  pub copied : ℕ → List ℕ
  pub out_ring_len : ℕ → ℕ
  pub out_ring_next : ℕ
  pub out_ring_pinned : ℕ
  pub out_ring_acked : ℕ

-- a[i] = x
abbrev pub set_at {ℓ} : {A : Type ℓ} → (ℕ → A) → ℕ → A → ℕ → A
set_at a i x j = if j == i then x else a j

-- The ring as `tcp_ssl_alloc_pcb` leaves it.
abbrev pub empty_ring : Ring
empty_ring = record {
  copied = λ _. [];
  out_ring_len = λ _. 0;
  out_ring_next = 0;
  out_ring_pinned = 0;
  out_ring_acked = 0;
}

-- memcpy(out_ring[slot], out_buf_ptr, out_len)
unfoldable pub fill : Ring → List ℕ → Ring
fill r bytes = record r { copied = set_at r.copied r.out_ring_next bytes }

-- The slots are `slots`, which is SSL_RECORD_RING_SLOTS.
module _ (slots : ℕ) where
  -- What follows a tcp_write that lwIP took.
  unfoldable pub commit : Ring → List ℕ → Ring
  commit r bytes = record r {
    out_ring_len = set_at r.out_ring_len r.out_ring_next (length bytes % 2 ^ 16);
    out_ring_next = (r.out_ring_next + 1) % slots % 2 ^ 8;
    out_ring_pinned = (r.out_ring_pinned + 1) % 2 ^ 8;
  }

  -- (uint8_t)((next - pinned + SLOTS) % SLOTS)
  unfoldable pub oldest : Ring → ℕ
  oldest r = (r.out_ring_next + slots - r.out_ring_pinned) % slots % 2 ^ 8

  -- One turn of the loop in `tcp_ssl_sent` that releases a slot.
  unfoldable pub release_oldest : Ring → Ring
  release_oldest r = record r {
    out_ring_acked = r.out_ring_acked - r.out_ring_len (oldest r);
    out_ring_len = set_at r.out_ring_len (oldest r) 0;
    out_ring_pinned = r.out_ring_pinned - 1;
  }

  -- The loop, on the number of pinned slots.
  unfoldable pub release_loop : ℕ → Ring → Ring
  release_loop zero r = r
  release_loop (suc n) r =
      let rest = release_loop n (release_oldest r) in
      if leb (r.out_ring_len (oldest r)) r.out_ring_acked then rest else r

  unfoldable pub anchor : Ring → Ring
  anchor r = if r.out_ring_pinned == 0 then record r { out_ring_acked = 0 } else r

  -- The ring's part of `tcp_ssl_sent`.
  unfoldable pub ring_sent : Ring → ℕ → Ring
  ring_sent r acked =
      let counted = record r { out_ring_acked = (r.out_ring_acked + acked % 2 ^ 32) % 2 ^ 32 } in
      anchor (release_loop counted.out_ring_pinned counted)
