-- ===== src/Engine/Ring/Release.antt =====
-- What an acknowledgement does to the account of the ring.
use async_tcp.Prelude.{
  ℕ, zero, suc, ◌+◌, ◌-◌, ◌%◌, ◌≤◌, ◌<◌, ◌≡◌, sym, ap, ◌∙◌, subst, List, [], ◌∷◌, ◌++◌, map, arith,
  leb, Bool-cases, inl, inr, length, append-nil, append_assoc,
}
use native.Mathlib.Nat.{mod-eq_of_lt, mod-add-mod, add-mod_right}
use async_tcp.Engine.Ring.{Ring, set_at, oldest, release_oldest, release_loop}
use async_tcp.Engine.Ring.Window.{window, window-set_past, start_released}
use async_tcp.Engine.Ring.Account.{
  total, total-append, Fits, IsConfig, start, flight, Held, Waits, Account,
}
use async_tcp.Engine.Ring.Write.{oldest-start, start-lt}

-- The front of two lists that are equal, and their rests.
cons_head : {x y : ℕ} {xs ys : List ℕ} → x ∷ xs ≡ y ∷ ys → x ≡ y
cons_head e = cc

cons_tail : {x y : ℕ} {xs ys : List ℕ} → x ∷ xs ≡ y ∷ ys → xs ≡ ys
cons_tail e = cc

module _ (slots size : ℕ) (config : IsConfig slots size) where
  module _ (r : Ring) (n : ℕ) (e : r.out_ring_pinned ≡ suc n) (p : r.out_ring_pinned ≤ slots) where
    start_next : (start slots size r + 1) % slots ≡ start slots size (release_oldest slots r)
    unfolding release_oldest
    start_next =
        let next = r.out_ring_next in
        ap (λ k. ((next + slots - k) % slots + 1) % slots) e
        ∙ sym (start_released slots next n (omega arith))
        ∙ ap (λ k. (next + slots - k) % slots) (omega arith)

    -- The slot released is the last one round the ring from the slot after it.
    oldest_round :
        oldest slots r
        ≡ (start slots size (release_oldest slots r) + (r.out_ring_pinned - 1 + (slots - suc n)))
          % slots
    oldest_round =
        let s = start slots size r in
        let lt = start-lt slots size config r in
        oldest-start slots size config r
        ∙ sym (mod-eq_of_lt lt)
        ∙ sym (add-mod_right s slots)
        ∙ ap (λ k. k % slots) (omega arith)
        ∙ sym (mod-add-mod (s + 1) slots (r.out_ring_pinned - 1 + (slots - suc n)))
        ∙ ap (λ k. (k + (r.out_ring_pinned - 1 + (slots - suc n))) % slots) start_next

    -- The window of a ring with a pinned slot is that slot and the window of the ring released.
    window_front :
        {A : Type 0} (a : ℕ → A)
        → window slots a (start slots size r) r.out_ring_pinned
          ≡ a (oldest slots r)
            ∷ window slots a (start slots size (release_oldest slots r)) (r.out_ring_pinned - 1)
    window_front a =
        let m : n ≡ r.out_ring_pinned - 1 = omega arith in
        ap (window slots a (start slots size r)) e
        ∙ ap (λ h. a h ∷ window slots a ((start slots size r + 1) % slots) n)
            (sym (oldest-start slots size config r))
        ∙ ap (λ h. a (oldest slots r) ∷ window slots a h n) start_next
        ∙ ap
            (λ k. a (oldest slots r) ∷ window slots a (start slots size (release_oldest slots r)) k)
            m

    -- Clearing the length of the slot released leaves those of the others.
    lengths_kept :
        window slots
          (set_at r.out_ring_len (oldest slots r) 0)
          (start slots size (release_oldest slots r))
          (r.out_ring_pinned - 1)
        ≡ window slots r.out_ring_len
            (start slots size (release_oldest slots r))
            (r.out_ring_pinned - 1)
    lengths_kept =
        window-set_past slots r.out_ring_len 0 (r.out_ring_pinned - 1) (slots - suc n)
          (start slots size (release_oldest slots r)) (oldest slots r)
          (start-lt slots size config (release_oldest slots r)) (omega arith) oldest_round

  release-Held :
      (r : Ring) (n : ℕ) (written : List (List ℕ)) (acked : ℕ)
      → r.out_ring_pinned ≡ suc n
      → r.out_ring_len (oldest slots r) ≤ r.out_ring_acked
      → Held slots size r written acked
      → Held slots size (release_oldest slots r) written acked
  unfolding release_oldest
  release-Held r n written acked e le h =
      let front = window_front r n e h.pinned_le r.copied in
      let lens =
        sym (window_front r n e h.pinned_le r.out_ring_len) ∙ h.lengths ∙ ap (map length) front in
      let head = cons_head lens in
      let bytes = r.copied (oldest slots r) in
      record {
        released = h.released ++ (bytes ∷ []);
        splits =
            h.splits
            ∙ ap (λ f. h.released ++ f) front
            ∙ sym (append_assoc h.released (bytes ∷ []) _);
        counted = omega (arith, h.counted, total-append h.released (bytes ∷ []), head);
        lengths = lengths_kept r n e h.pinned_le ∙ cons_tail lens;
        fits = (subst (Fits size) front h.fits).1;
        next_lt = h.next_lt;
        pinned_le = omega (arith, h.pinned_le);
      }

  counted_cover :
      (r : Ring) (acked : ℕ) (written : List (List ℕ))
      → r.out_ring_pinned ≡ 0
      → acked ≤ total written
      → Held slots size r written acked
      → Waits r.out_ring_acked (flight slots size r)
  counted_cover r acked written e le h =
      let empty : flight slots size r ≡ [] = ap (window slots r.copied (start slots size r)) e in
      let all : written ≡ h.released =
        h.splits ∙ ap (λ f. h.released ++ f) empty ∙ append-nil h.released in
      subst (Waits r.out_ring_acked) (sym empty) (omega (arith, h.counted, ap total all))

  not_covered :
      (r : Ring) (n : ℕ) (acked : ℕ) (written : List (List ℕ))
      → r.out_ring_pinned ≡ suc n
      → r.out_ring_acked < r.out_ring_len (oldest slots r)
      → Held slots size r written acked
      → Waits r.out_ring_acked (flight slots size r)
  not_covered r n acked written e lt h =
      let front = window_front r n e h.pinned_le r.copied in
      let lens =
        sym (window_front r n e h.pinned_le r.out_ring_len) ∙ h.lengths ∙ ap (map length) front in
      subst (Waits r.out_ring_acked) (sym front) (omega (arith, cons_head lens))

  pinned_less :
      (r : Ring) (n : ℕ) → r.out_ring_pinned ≡ suc n → (release_oldest slots r).out_ring_pinned ≡ n
  unfolding release_oldest
  pinned_less r n e = omega arith

  -- The loop releases every record that the count covers, and stops at the first one it does not.
  pub release-Account :
      (n : ℕ) (r : Ring) (written : List (List ℕ)) (acked : ℕ)
      → r.out_ring_pinned ≡ n
      → acked ≤ total written
      → Held slots size r written acked
      → Account slots size (release_loop slots n r) written acked
  unfolding release_loop
  release-Account zero r written acked e le h = record {
    held = h;
    waits = counted_cover r acked written e le h;
  }
  release-Account (suc n) r written acked e le h =
      elim (Bool-cases (leb (r.out_ring_len (oldest slots r)) r.out_ring_acked)) [
        | inl covered ↦ rw covered (
            release-Account n (release_oldest slots r) written acked (pinned_less r n e) le
              (release-Held r n written acked e (ground arith) h))
        | inr short ↦
            rw short (record { held = h; waits = not_covered r n acked written e (ground arith) h })
      ]
