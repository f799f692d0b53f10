-- ===== src/Engine/Slab.antt =====
-- The buffers of a session in their one allocation (`tcp_ssl_alloc_pcb` of
-- src/AsyncSecureSession.cpp, and the sizes of src/AsyncSecureSession.h, ESP8266). Addresses are
-- offsets into `_slab`.
use async_tcp.Prelude.{
  ℕ, suc, ◌+◌, ◌*◌, ◌≤◌, ◌<◌, ◌≡◌, ap, Bool, arith, if◌then◌else◌, Option, none, some,
}
use native.Mathlib.Nat.{mul-le-mul_right, suc-mul}

-- SSL_IN_BUFFER_SIZE and SSL_SERVER_IN_BUFFER_SIZE.
abbrev pub in_buffer_size : ℕ
in_buffer_size = 2048

abbrev pub server_in_buffer_size : ℕ
server_in_buffer_size = 2048

pub record Slab : Type 0 where
  pub slab_size : ℕ
  pub inbuf : ℕ
  pub inbuf_cap : ℕ
  pub outbuf : ℕ
  pub out_ring : ℕ → ℕ

-- `slots` is SSL_RECORD_RING_SLOTS and `size` SSL_OUT_BUFFER_SIZE.
module _ (slots size : ℕ) where
  -- SSL_OUT_BUFFER_REGION
  abbrev out_buffer_region : ℕ
  out_buffer_region = slots * size

  unfoldable pub in_size : Bool → ℕ
  in_size is_server = if is_server then server_in_buffer_size else in_buffer_size

  unfoldable pub layout : Bool → Slab
  layout is_server = record {
    slab_size = in_size is_server + out_buffer_region;
    inbuf = 0;
    inbuf_cap = in_size is_server;
    outbuf = in_size is_server;
    out_ring = λ i. in_size is_server + i * size;
  }

  -- What `tcp_ssl_alloc_pcb` has freed when it returns null, with whether each of its two
  -- allocations succeeds.
  unfoldable pub alloc_pcb : Bool → Bool → Bool → Option Slab
  alloc_pcb is_server pcb_found slab_found =
      if pcb_found then (if slab_found then some (layout is_server) else none) else none

  -- A range of the slab from an address on.
  pub record Range : Type 0 where
    pub from : ℕ
    pub to : ℕ

  abbrev pub slot_range : Slab → ℕ → Range
  slot_range s i = record { from = s.out_ring i; to = s.out_ring i + size }

  abbrev pub in_range : Slab → Range
  in_range s = record { from = s.inbuf; to = s.inbuf + s.inbuf_cap }

  -- br_ssl_engine_set_buffers_bidi(.., outbuf, SSL_OUT_BUFFER_SIZE) in `tcp_ssl_new_client` and
  -- `tcp_ssl_new_server`.
  unfoldable pub engine_out_range : Slab → Range
  engine_out_range s = record { from = s.outbuf; to = s.outbuf + size }

  -- The receive buffer and the slots lie in the slab, one after the other.
  pub record IsLaidOut (s : Slab) : Type 0 where
    pub inside : (i : ℕ) → i < slots → (slot_range s i).to ≤ s.slab_size
    pub past_inbuf : (i : ℕ) → (in_range s).to ≤ (slot_range s i).from
    pub apart : (i j : ℕ) → i < j → (slot_range s i).to ≤ (slot_range s j).from

  slot_end : (i k : ℕ) → i < k → i * size + size ≤ k * size
  slot_end i k lt =
      let le : suc i ≤ k = omega arith in omega (arith, mul-le-mul_right size le, suc-mul i size)

  -- Every slot of the ring lies in the slab, behind the receive buffer, and behind the slots
  -- before it.
  pub layout-IsLaidOut : (is_server : Bool) → IsLaidOut (layout is_server)
  unfolding layout
  layout-IsLaidOut is_server = record {
    inside = λ i lt. omega (arith, slot_end i slots lt);
    past_inbuf = λ i. omega arith;
    apart = λ i j lt. omega (arith, slot_end i j lt);
  }

  -- The output buffer given to the engine is the first slot of the ring.
  pub engine_out_range-slot_range :
      (is_server : Bool) → engine_out_range (layout is_server) ≡ slot_range (layout is_server) 0
  unfolding engine_out_range layout
  engine_out_range-slot_range is_server = ap (λ k. record { from = k; to = k + size }) (omega arith)
