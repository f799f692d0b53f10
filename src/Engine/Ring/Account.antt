-- ===== src/Engine/Ring/Account.antt =====
-- The ring of outbound records against the records written and the bytes acknowledged.
use async_tcp.Prelude.{
  ℕ, ◌+◌, ◌-◌, ◌%◌, ◌^◌, ◌≤◌, ◌<◌, ◌≡◌, refl, ap, List, [], ◌∷◌, ◌++◌, map, arith, length,
}
use async_tcp.Engine.Ring.{Ring, empty_ring, fill, commit, ring_sent}
use async_tcp.Engine.Ring.Window.{window}

-- The bytes of some records.
abbrev pub total : List (List ℕ) → ℕ
total [] = 0
total (bytes ∷ rest) = length bytes + total rest

pub total-append : (xs ys : List (List ℕ)) → total (xs ++ ys) ≡ total xs + total ys
total-append [] ys = omega arith
total-append (x ∷ xs) ys = omega (arith, total-append xs ys)

-- No record is longer than an output buffer.
abbrev pub Fits : ℕ → List (List ℕ) → Type 0
Fits size [] = 0 ≤ 0
Fits size (bytes ∷ rest) = (length bytes ≤ size) × Fits size rest

pub Fits-snoc :
    (size : ℕ) (xs : List (List ℕ)) (b : List ℕ)
    → Fits size xs
    → length b ≤ size
    → Fits size (xs ++ (b ∷ []))
Fits-snoc size [] b h p = (p, omega arith)
Fits-snoc size (x ∷ xs) b h p = (h.0, Fits-snoc size xs b h.1 p)

pub map-snoc :
    (xs : List (List ℕ)) (b : List ℕ)
    → map length (xs ++ (b ∷ [])) ≡ map length xs ++ (length b ∷ [])
map-snoc [] b = refl
map-snoc (x ∷ xs) b = ap (◌∷◌ (length x)) (map-snoc xs b)

-- The oldest record waits for more than the bytes counted, and with no record none are counted.
abbrev pub Waits : ℕ → List (List ℕ) → Type 0
Waits acked [] = acked ≡ 0
Waits acked (bytes ∷ rest) = acked < length bytes

-- What the section's numbers are in the source: SSL_RECORD_RING_SLOTS and SSL_OUT_BUFFER_SIZE.
pub record IsConfig (slots size : ℕ) : Type 0 where
  pub some_slot : 0 < slots
  pub slots_byte : slots < 2 ^ 8
  pub size_word : size < 2 ^ 16

module _ (slots size : ℕ) where
  -- The slot of the oldest record, and the records in the pinned slots from it on.
  abbrev pub start : Ring → ℕ
  start r = (r.out_ring_next + slots - r.out_ring_pinned) % slots

  abbrev pub flight : Ring → List (List ℕ)
  flight r = window slots r.copied (start r) r.out_ring_pinned

  -- The records written are those released and those in flight, and the bytes acknowledged are
  -- those of the records released and the ring's count.
  pub record Held (r : Ring) (written : List (List ℕ)) (acked : ℕ) : Type 0 where
    pub released : List (List ℕ)
    pub splits : written ≡ released ++ flight r
    pub counted : acked ≡ total released + r.out_ring_acked
    pub lengths : window slots r.out_ring_len (start r) r.out_ring_pinned ≡ map length (flight r)
    pub fits : Fits size (flight r)
    pub next_lt : r.out_ring_next < slots
    pub pinned_le : r.out_ring_pinned ≤ slots

  pub record Account (r : Ring) (written : List (List ℕ)) (acked : ℕ) : Type 0 where
    pub held : Held r written acked
    pub waits : Waits r.out_ring_acked (flight r)

  -- The states of a ring, with the records written to TCP so far and the bytes the peer has
  -- acknowledged. A record has bytes, no more than an output buffer holds and finds a free slot, lwIP
  -- reports an acknowledgement in 16 bits, and a peer acknowledges only what was sent.
  pub data Reach : Ring → List (List ℕ) → ℕ → Type 0 where
    allocated : Reach empty_ring [] 0
    wrote :
        {r : Ring} {written : List (List ℕ)} {acked : ℕ} (bytes : List ℕ)
        → Reach r written acked
        → r.out_ring_pinned < slots
        → 0 < length bytes
        → length bytes ≤ size
        → Reach (commit slots (fill r bytes) bytes) (written ++ (bytes ∷ [])) acked
    refused :
        {r : Ring} {written : List (List ℕ)} {acked : ℕ} (bytes : List ℕ)
        → Reach r written acked
        → r.out_ring_pinned < slots
        → Reach (fill r bytes) written acked
    sent :
        {r : Ring} {written : List (List ℕ)} {acked : ℕ} (n : ℕ)
        → Reach r written acked
        → n < 2 ^ 16
        → acked + n ≤ total written
        → Reach (ring_sent slots r n) written (acked + n)
