-- ===== src/Engine/Ring/Write.antt =====
-- What writing a record does to the account of the ring.
use async_tcp.Prelude.{
  ℕ, suc, ◌+◌, ◌-◌, ◌%◌, ◌^◌, ◌≤◌, ◌<◌, ◌≡◌, sym, ap, ◌∙◌, subst, List, [], ◌∷◌, ◌++◌, map, arith,
  length, append_assoc,
}
use native.Mathlib.Nat.{mod-eq_of_lt, mod-lt}
use async_tcp.Engine.Ring.{Ring, set_at, fill, commit, oldest}
use async_tcp.Engine.Ring.Window.{
  window, window-set, window-set_past, past_window, start_filled, slot_byte,
}
use async_tcp.Engine.Ring.Account.{Fits, Fits-snoc, map-snoc, IsConfig, start, flight, Held}

module _ (slots size : ℕ) (config : IsConfig slots size) where
  pub oldest-start : (r : Ring) → oldest slots r ≡ start slots size r
  unfolding oldest
  oldest-start r =
      slot_byte slots (r.out_ring_next + slots - r.out_ring_pinned) config.some_slot
        config.slots_byte

  pub start-lt : (r : Ring) → start slots size r < slots
  start-lt r = mod-lt (r.out_ring_next + slots - r.out_ring_pinned) config.some_slot

  next_past :
      (r : Ring)
      → r.out_ring_next < slots
      → r.out_ring_pinned ≤ slots
      → r.out_ring_next ≡ (start slots size r + r.out_ring_pinned) % slots
  next_past r p q = past_window slots r.out_ring_next r.out_ring_pinned p q

  -- The copy into the next slot touches no record in flight.
  pub flight-fill :
      (r : Ring) (bytes : List ℕ)
      → r.out_ring_next < slots
      → r.out_ring_pinned < slots
      → flight slots size (fill r bytes) ≡ flight slots size r
  unfolding fill
  flight-fill r bytes p q =
      window-set_past slots r.copied bytes r.out_ring_pinned 0 (start slots size r) r.out_ring_next
        (start-lt r) (omega arith)
        (next_past r p (omega arith) ∙ ap (λ k. (start slots size r + k) % slots) (omega arith))

  pub fill-Held :
      (r : Ring) (written : List (List ℕ)) (acked : ℕ) (bytes : List ℕ)
      → r.out_ring_pinned < slots
      → Held slots size r written acked
      → Held slots size (fill r bytes) written acked
  unfolding fill
  fill-Held r written acked bytes q h =
      let same = flight-fill r bytes h.next_lt q in
      record {
        released = h.released;
        splits = h.splits ∙ ap (λ f. h.released ++ f) (sym same);
        counted = h.counted;
        lengths = h.lengths ∙ ap (map length) (sym same);
        fits = subst (Fits size) (sym same) h.fits;
        next_lt = h.next_lt;
        pinned_le = h.pinned_le;
      }

  start_committed :
      (r : Ring) (bytes : List ℕ)
      → r.out_ring_pinned < slots
      → start slots size (commit slots (fill r bytes) bytes) ≡ start slots size r
  unfolding commit fill
  start_committed r bytes q =
      let p = config.some_slot in
      let c = config.slots_byte in
      let e : (r.out_ring_pinned + 1) % 2 ^ 8 ≡ r.out_ring_pinned + 1 =
        mod-eq_of_lt (omega arith) in
      ap (λ k. (k + slots - ((r.out_ring_pinned + 1) % 2 ^ 8)) % slots)
        (slot_byte slots (r.out_ring_next + 1) p c)
      ∙ ap (λ k. ((r.out_ring_next + 1) % slots + slots - k) % slots) e
      ∙ start_filled slots r.out_ring_next r.out_ring_pinned q

  -- One more entry in the window of an array written at the ring's next slot.
  window_next :
      {A : Type 0} (a : ℕ → A) (x : A) (r : Ring) (bytes : List ℕ)
      → r.out_ring_next < slots
      → r.out_ring_pinned < slots
      → window slots
          (set_at a r.out_ring_next x)
          (start slots size (commit slots (fill r bytes) bytes))
          ((r.out_ring_pinned + 1) % 2 ^ 8)
        ≡ window slots a (start slots size r) r.out_ring_pinned ++ (x ∷ [])
  window_next a x r bytes p q =
      let c = config.slots_byte in
      let e : (r.out_ring_pinned + 1) % 2 ^ 8 ≡ suc r.out_ring_pinned =
        mod-eq_of_lt (omega arith) ∙ omega arith in
      ap
        (window slots (set_at a r.out_ring_next x)
          (start slots size (commit slots (fill r bytes) bytes)))
        e
      ∙ ap (λ h. window slots (set_at a r.out_ring_next x) h (suc r.out_ring_pinned))
          (start_committed r bytes q)
      ∙ window-set slots a x r.out_ring_pinned (start slots size r) r.out_ring_next (start-lt r) q
          (next_past r p (omega arith))

  pub flight-commit :
      (r : Ring) (bytes : List ℕ)
      → r.out_ring_next < slots
      → r.out_ring_pinned < slots
      → flight slots size (commit slots (fill r bytes) bytes) ≡ flight slots size r ++ (bytes ∷ [])
  unfolding commit fill
  flight-commit r bytes p q = window_next r.copied bytes r bytes p q

  pub commit-Held :
      (r : Ring) (written : List (List ℕ)) (acked : ℕ) (bytes : List ℕ)
      → r.out_ring_pinned < slots
      → length bytes ≤ size
      → Held slots size r written acked
      → Held slots size (commit slots (fill r bytes) bytes) (written ++ (bytes ∷ [])) acked
  unfolding commit fill
  commit-Held r written acked bytes q fit h =
      let p = config.some_slot in
      let c = config.slots_byte in
      let w = config.size_word in
      let more = window_next r.copied bytes r bytes h.next_lt q in
      let n16 : length bytes % 2 ^ 16 ≡ length bytes = mod-eq_of_lt (omega arith) in
      record {
        released = h.released;
        splits =
            ap (λ l. l ++ (bytes ∷ [])) h.splits
            ∙ append_assoc h.released (flight slots size r) (bytes ∷ [])
            ∙ ap (λ f. h.released ++ f) (sym more);
        counted = h.counted;
        lengths =
            window_next r.out_ring_len (length bytes % 2 ^ 16) r bytes h.next_lt q
            ∙ ap (λ l. l ++ ((length bytes % 2 ^ 16) ∷ [])) h.lengths
            ∙ ap (λ n. map length (flight slots size r) ++ (n ∷ [])) n16
            ∙ sym (map-snoc (flight slots size r) bytes)
            ∙ ap (map length) (sym more);
        fits = subst (Fits size) (sym more) (Fits-snoc size (flight slots size r) bytes h.fits fit);
        next_lt =
            omega
              (arith, slot_byte slots (r.out_ring_next + 1) p c, mod-lt (r.out_ring_next + 1) p);
        pinned_le = omega arith;
      }
