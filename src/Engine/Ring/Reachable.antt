-- ===== src/Engine/Ring/Reachable.antt =====
-- Every state that the ring reaches accounts for what was written and acknowledged.
use async_tcp.Prelude.{
  ℕ, ◌+◌, ◌%◌, ◌^◌, ◌≤◌, ◌<◌, ◌≡◌, refl, sym, ap, ◌∙◌, subst, List, [], ◌∷◌, ◌++◌, map, ◌-◌, arith,
  Bool-cases, inl, inr, length, ◌==◌,
}
use native.Mathlib.Nat.{mod-eq_of_lt}
use async_tcp.Engine.Ring.{Ring, empty_ring, fill, commit, release_loop, anchor, ring_sent}
use async_tcp.Engine.Ring.Window.{window}
use async_tcp.Engine.Ring.Account.{
  total, total-append, Fits, IsConfig, start, flight, Held, Waits, Account, Reach, allocated, wrote,
  refused, sent,
}
use async_tcp.Engine.Ring.Write.{fill-Held, commit-Held, flight-fill, flight-commit}
use async_tcp.Engine.Ring.Release.{release-Account}

module _ (slots size : ℕ) (config : IsConfig slots size) where
  -- A front record waits for the same count whatever follows it.
  Waits-snoc :
      (n : ℕ) (xs : List (List ℕ)) (bytes : List ℕ)
      → 0 < length bytes
      → Waits n xs
      → Waits n (xs ++ (bytes ∷ []))
  Waits-snoc n [] bytes p w = omega arith
  Waits-snoc n (x ∷ xs) bytes p w = w

  Waits-small : (n : ℕ) (xs : List (List ℕ)) → Waits n xs → Fits size xs → n < 2 ^ 16
  Waits-small n [] w f = omega arith
  Waits-small n (x ∷ xs) w f = let s = config.size_word in let g = f.0 in omega arith

  anchor-Account :
      (r : Ring) (written : List (List ℕ)) (acked : ℕ)
      → Account slots size r written acked
      → Account slots size (anchor slots r) written acked
  unfolding anchor
  anchor-Account r written acked a = elim (Bool-cases (r.out_ring_pinned == 0)) [
    | inr more ↦ rw more a
    | inl drained ↦
        let h = a.held in
        let e : r.out_ring_pinned ≡ 0 = ground arith in
        let empty : flight slots size r ≡ [] = ap (window slots r.copied (start slots size r)) e in
        let none_left : r.out_ring_acked ≡ 0 = subst (Waits r.out_ring_acked) empty a.waits in
        rw drained (record {
          held = record {
            released = h.released;
            splits = h.splits;
            counted = omega (arith, h.counted, none_left);
            lengths = h.lengths;
            fits = h.fits;
            next_lt = h.next_lt;
            pinned_le = h.pinned_le;
          };
          waits = subst (Waits 0) (sym empty) refl;
        })
  ]

  sent-Account :
      (r : Ring) (written : List (List ℕ)) (acked n : ℕ)
      → n < 2 ^ 16
      → acked + n ≤ total written
      → Account slots size r written acked
      → Account slots size (ring_sent slots r n) written (acked + n)
  unfolding ring_sent
  sent-Account r written acked n p le a =
      let h = a.held in
      let small = Waits-small r.out_ring_acked (flight slots size r) a.waits h.fits in
      let n32 : n % 2 ^ 32 ≡ n = mod-eq_of_lt (omega arith) in
      let sum32 : (r.out_ring_acked + n) % 2 ^ 32 ≡ r.out_ring_acked + n =
        mod-eq_of_lt (omega arith) in
      let sum : (r.out_ring_acked + n % 2 ^ 32) % 2 ^ 32 ≡ r.out_ring_acked + n =
        ap (λ k. (r.out_ring_acked + k) % 2 ^ 32) n32 ∙ sum32 in
      let c : Ring = record r { out_ring_acked = (r.out_ring_acked + n % 2 ^ 32) % 2 ^ 32 } in
      let held : Held slots size c written (acked + n) = record {
        released = h.released;
        splits = h.splits;
        counted = omega (arith, h.counted, sum);
        lengths = h.lengths;
        fits = h.fits;
        next_lt = h.next_lt;
        pinned_le = h.pinned_le;
      } in
      anchor-Account (release_loop slots c.out_ring_pinned c) written (acked + n)
        (release-Account slots size config c.out_ring_pinned c written (acked + n) refl le held)

  empty-Account : Account slots size empty_ring [] 0
  empty-Account = record {
    held = record {
      released = [];
      splits = refl;
      counted = refl;
      lengths = refl;
      fits = omega arith;
      next_lt = config.some_slot;
      pinned_le = omega arith;
    };
    waits = refl;
  }

  module _ (r : Ring) (written : List (List ℕ)) (acked : ℕ) (bytes : List ℕ) where
    wrote-Account :
        r.out_ring_pinned < slots
        → 0 < length bytes
        → length bytes ≤ size
        → Account slots size r written acked
        → Account slots size (commit slots (fill r bytes) bytes) (written ++ (bytes ∷ [])) acked
    unfolding commit fill
    wrote-Account free some_bytes fit a =
        let more = flight-commit slots size config r bytes a.held.next_lt free in
        record {
          held = commit-Held slots size config r written acked bytes free fit a.held;
          waits =
              subst (Waits r.out_ring_acked) (sym more)
                (Waits-snoc r.out_ring_acked (flight slots size r) bytes some_bytes a.waits);
        }

    refused-Account :
        r.out_ring_pinned < slots
        → Account slots size r written acked
        → Account slots size (fill r bytes) written acked
    unfolding fill
    refused-Account free a =
        let same = flight-fill slots size config r bytes a.held.next_lt free in
        record {
          held = fill-Held slots size config r written acked bytes free a.held;
          waits = subst (Waits r.out_ring_acked) (sym same) a.waits;
        }

  -- The ring agrees with its history. What was copied into a slot stays on record until the next
  -- copy into it.
  pub Reach-Account :
      (r : Ring) (written : List (List ℕ)) (acked : ℕ)
      → Reach slots size r written acked
      → Account slots size r written acked
  Reach-Account _ _ _ allocated = empty-Account
  Reach-Account _ _ _ (wrote {r} {written} {acked} bytes past free some_bytes fit) =
      wrote-Account r written acked bytes free some_bytes fit (Reach-Account r written acked past)
  Reach-Account _ _ _ (refused {r} {written} {acked} bytes past free) =
      refused-Account r written acked bytes free (Reach-Account r written acked past)
  Reach-Account _ _ _ (sent {r} {written} {acked} n past word le) =
      sent-Account r written acked n word le (Reach-Account r written acked past)

  -- The records written are those released and those pinned, whose lengths the ring has from its
  -- oldest slot on; the bytes acknowledged are those of the records released and the ring's count,
  -- which does not cover the oldest record that is pinned.
  abbrev pub Settled : Ring → List (List ℕ) → ℕ → Type 0
  Settled r written acked =
      (released pinned : List (List ℕ)) × (written ≡ released ++ pinned)
      × (window slots r.out_ring_len ((r.out_ring_next + slots - r.out_ring_pinned) % slots)
            r.out_ring_pinned
          ≡ map length pinned)
      × (acked ≡ total released + r.out_ring_acked)
      × Waits r.out_ring_acked pinned

  -- In every state of the ring of outbound records, the records written to TCP, in order, are
  -- those released and those pinned; the lengths that the ring has from its oldest slot on are
  -- those of the records pinned; the bytes acknowledged are those of the records released and the
  -- ring's count; and the count does not cover the oldest record that is pinned, and is 0 when
  -- there is none. The ring has from 1 to 255 slots of less than 65536 bytes, a record with bytes
  -- that fits a slot is written to a free one, and the peer acknowledges in 16 bits no more than
  -- was written. It says nothing of what is in the slots' memory.
  pub Reach-Settled :
      (r : Ring) (written : List (List ℕ)) (acked : ℕ)
      → Reach slots size r written acked
      → Settled r written acked
  Reach-Settled r written acked past =
      let a = Reach-Account r written acked past in
      let h = a.held in (h.released, flight slots size r, h.splits, h.lengths, h.counted, a.waits)

-- No more is acknowledged than was written.
pub Reach-total :
    (slots size : ℕ) (r : Ring) (written : List (List ℕ)) (acked : ℕ)
    → Reach slots size r written acked
    → acked ≤ total written
Reach-total slots size _ _ _ allocated = omega arith
Reach-total slots size _ _ _ (wrote {r} {written} {acked} bytes past free some_bytes fit) =
    omega (arith, Reach-total slots size r written acked past, total-append written (bytes ∷ []))
Reach-total slots size _ _ _ (refused {r} {written} {acked} bytes past free) =
    Reach-total slots size r written acked past
Reach-total slots size _ _ _ (sent {r} {written} {acked} n past word le) = le
