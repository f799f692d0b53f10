-- ===== src/IntrusiveList/Remove.antt =====
-- `remove_if` as a filter.
use mathlib.Core.List.{reverse, reverse_aux}
use async_tcp.Prelude.{
  ℕ, zero, suc, ◌<◌, ◌≡◌, refl, ◌∙◌, sym, Bool, Option, some, List, [], ◌∷◌, ◌++◌, inl, inr, arith,
  ◌==◌, ==_ne, if◌then◌else◌, length, length-append, append-nil, append_assoc, Bool-cases,
}
use async_tcp.IntrusiveList.{
  Slot, head_slot, next_slot, Store, update, store, unlink, remove_loop, remove_if,
}
use async_tcp.IntrusiveList.Push.{store-next}
use async_tcp.IntrusiveList.Apart.{
  Apart, Apart-weaken, not-has_of_Apart, has_mid, Distinct-mid, Distinct-drop, Distinct-Apart,
  not-has_drop, not-has_front,
}
use async_tcp.IntrusiveList.Chain.{
  Chain, Chain-frame, Chain-after, has-append, last_slot, last_slot-append, load-last_slot,
  slot_after, splice, IsList, Distinct-append_left,
}

-- The nodes kept, in order, and those removed, in order.
abbrev pub kept : (ℕ → Bool) → List ℕ → List ℕ
kept condition [] = []
kept condition (x ∷ xs) = if condition x then kept condition xs else x ∷ kept condition xs

abbrev pub met : (ℕ → Bool) → List ℕ → List ℕ
met condition [] = []
met condition (x ∷ xs) = if condition x then x ∷ met condition xs else met condition xs

-- At a round of the loop: `front` has been kept, `back` is still to come, `out` has been removed.
record Round (s : Store) (front back : List ℕ) (removed : ℕ) (out : List ℕ) : Type 0 where
  list : IsList s (front ++ back)
  chain : Chain s.next removed out
  apart : Apart out (front ++ back)

-- What the loop returns.
pub record Removed (r : Option (Store × ℕ)) (xs out : List ℕ) : Type 0 where
  pub left : Store
  pub removed : ℕ
  pub returns : r ≡ some (left, removed)
  pub list : IsList left xs
  pub chain : Chain left.next removed out

store-tail : (s : Store) (at : Slot) (q : ℕ) → (store s at q).tail ≡ s.tail
store-tail s head_slot q = refl
store-tail s (next_slot p) q = refl

store-size : (s : Store) (at : Slot) (q : ℕ) → (store s at q).size ≡ s.size
store-size s head_slot q = refl
store-size s (next_slot p) q = refl

-- A chain of other nodes is not touched by a write behind `front`.
Chain-store :
    (s : Store) (front : List ℕ) (q p : ℕ) (xs : List ℕ)
    → Apart xs front
    → Chain s.next p xs
    → Chain (store s (last_slot front) q).next p xs
Chain-store s front q p [] a c = c
Chain-store s front q p (x ∷ xs) a c =
    (c.0, c.1, rw (store-next s front x q a.0) (Chain-store s front q (s.next x) xs a.1 c.2))

module _ (s : Store) (front : List ℕ) (x : ℕ) (back : List ℕ) (removed : ℕ) (out : List ℕ)
    (r : Round s front (x ∷ back) removed out) where
  rest-Chain : Chain s.next (slot_after s.next s.head front) (x ∷ back)
  rest-Chain = Chain-after s.next s.head front (x ∷ back) r.list.chain

  moved : Store
  moved = store s (last_slot front) (s.next x)

  list-Chain : Chain (update moved.next x removed) moved.head (front ++ back)
  unfolding moved
  list-Chain =
      let d = Distinct-drop front x back r.list.distinct in
      Chain-frame moved.next x removed moved.head (front ++ back)
        (Distinct-mid front x back r.list.distinct)
        (splice s front (x ∷ back) back (s.next x) (Distinct-append_left front back d) r.list.chain
          (Chain-store s front (s.next x) (s.next x) back (Distinct-Apart front back d)
            rest-Chain.2))

  moved_next : moved.next x ≡ s.next x
  unfolding moved
  moved_next =
      store-next s front x (s.next x)
        (ground (arith, Distinct-mid front x back r.list.distinct, has-append x front back))

  out-Chain : Chain (update moved.next x removed) removed out
  unfolding moved
  out-Chain =
      Chain-frame moved.next x removed removed out
        (not-has_of_Apart out (front ++ x ∷ back) x r.apart (has_mid front x back))
        (Chain-store s front (s.next x) removed out
          (Apart-weaken out (front ++ x ∷ back) front (λ z. not-has_front z front x back) r.apart)
          r.chain)

list_tail :
    (s : Store) (front : List ℕ) (x : ℕ) (back : List ℕ)
    → IsList s (front ++ x ∷ back)
    → Chain s.next (s.next x) back
    → (if s.next x == 0 then last_slot front else s.tail) ≡ last_slot (front ++ back)
list_tail s front x [] l c = rw (c, append-nil)
list_tail s front x (y ∷ ys) l c =
    rw (==_ne (s.next x) 0 (ground arith))
      (l.tail ∙ last_slot-append front x (y ∷ ys) ∙ sym (last_slot-append front y ys))

unlink-Round :
    (s : Store) (front : List ℕ) (x : ℕ) (back : List ℕ) (removed : ℕ) (out : List ℕ)
    → Round s front (x ∷ back) removed out
    → Round (unlink s (last_slot front) x removed) front back x (x ∷ out)
unfolding unlink moved
unlink-Round s front x back removed out r =
    let e : update (moved s front x back removed out r).next x removed x ≡ removed = ground arith in
    record {
      list = record {
        chain = list-Chain s front x back removed out r;
        distinct = Distinct-drop front x back r.list.distinct;
        tail =
            rw (moved_next s front x back removed out r, store-tail s (last_slot front) (s.next x))
              (list_tail s front x back r.list (rest-Chain s front x back removed out r).2);
        size = omega (
          arith,
          store-size s (last_slot front) (s.next x),
          r.list.size,
          length-append front (x ∷ back),
          length-append front back,
        );
      };
      chain = (
        refl,
        (rest-Chain s front x back removed out r).1,
        rw e (out-Chain s front x back removed out r),
      );
      apart = (
        Distinct-mid front x back r.list.distinct,
        Apart-weaken out (front ++ x ∷ back) (front ++ back) (λ z. not-has_drop z front x back)
            r.apart,
      );
    }

keep-Round :
    (s : Store) (front : List ℕ) (x : ℕ) (back : List ℕ) (removed : ℕ) (out : List ℕ)
    → Round s front (x ∷ back) removed out
    → Round s (front ++ x ∷ []) back removed out
keep-Round s front x back removed out r =
    let e : (front ++ x ∷ []) ++ back ≡ front ++ x ∷ back = append_assoc front (x ∷ []) back in
    record { list = rw e r.list; chain = r.chain; apart = rw e r.apart }

remove_loop-Removed :
    (condition : ℕ → Bool) (k : ℕ) (s : Store) (front back : List ℕ) (removed : ℕ) (out : List ℕ)
    → length back < k
    → Round s front back removed out
    → Removed
        (remove_loop condition k s (last_slot front) removed)
        (front ++ kept condition back)
        (reverse_aux (met condition back) out)
unfolding remove_loop
remove_loop-Removed condition zero s front back removed out h r = absurd (omega arith)
remove_loop-Removed condition (suc k) s front [] removed out h r =
    let c = Chain-after s.next s.head front [] r.list.chain in
    rw (load-last_slot s front, c)
      (record { left = s; removed = removed; returns = refl; list = r.list; chain = r.chain })
remove_loop-Removed condition (suc k) s front (x ∷ back) removed out h r =
    let c = Chain-after s.next s.head front (x ∷ back) r.list.chain in
    elim (Bool-cases (condition x)) [
      | inl meets ↦
          rw (load-last_slot s front, c.0, ==_ne x 0 c.1, meets)
            (remove_loop-Removed condition k (unlink s (last_slot front) x removed) front back x
              (x ∷ out) (omega arith) (unlink-Round s front x back removed out r))
      | inr spared ↦
          let e : next_slot x ≡ last_slot (front ++ x ∷ []) = sym (last_slot-append front x []) in
          rw
            (
              load-last_slot s front,
              c.0,
              ==_ne x 0 c.1,
              spared,
              e,
              ← append_assoc front (x ∷ []) (kept condition back),
            )
            (remove_loop-Removed condition k s (front ++ x ∷ []) back removed out (omega arith)
              (keep-Round s front x back removed out r))
    ]

-- On a list in order `remove_if` keeps, in order, the nodes that do not meet the condition, with
-- the tail and the size right; the others come back as a chain, in reverse order. Fuel beyond the
-- number of nodes is enough.
pub remove_if-kept :
    (condition : ℕ → Bool) (k : ℕ) (s : Store) (xs : List ℕ)
    → IsList s xs
    → length xs < k
    → Removed (remove_if condition k s) (kept condition xs) (reverse (met condition xs))
unfolding remove_if
remove_if-kept condition k s xs l h =
    remove_loop-Removed condition k s [] xs 0 [] h (record { list = l; chain = refl; apart = tt })
