-- ===== src/IntrusiveList/Push.antt =====
-- `push_back`, `push_front`, `pop_front` and `clear` as operations on the list of nodes.
use async_tcp.Prelude.{
  ℕ, zero, suc, ◌+◌, ◌<◌, ◌≡◌, refl, ap, ◌∙◌, sym, ◌≢◌, true, false, some, List, [], ◌∷◌, ◌++◌,
  arith, ◌==◌, if◌then◌else◌, length, length-append, append-nil, ==_ne, ==_refl,
}
use async_tcp.IntrusiveList.{
  head_slot, next_slot, Store, update, store, push_back, push_front, pop_front, delete_list,
  slot_eq, clear, validate_tail, last_node, list_size,
}
use async_tcp.IntrusiveList.Chain.{
  has, Distinct, Chain, last_of, last_slot, IsList, Chain-frame, has-append, last_slot-append,
  ne_last, splice,
}

Distinct-snoc : (xs : List ℕ) (x : ℕ) → Distinct xs → has x xs ≡ false → Distinct (xs ++ x ∷ [])
Distinct-snoc [] x d out = (refl, tt)
Distinct-snoc (y ∷ ys) x d out =
    (ground (arith, has-append y ys (x ∷ [])), Distinct-snoc ys x d.1 (ground arith))

pub store-next :
    (s : Store) (xs : List ℕ) (x q : ℕ)
    → has x xs ≡ false
    → (store s (last_slot xs) q).next x ≡ s.next x
store-next s [] x q out = refl
store-next s (y ∷ ys) x q out = ground (arith, ne_last x y ys out)

-- On a list in order, a node that is not null and not in the list, and whose `next` is null as
-- `new` leaves it, goes to the end, and the list stays in order.
pub push_back-snoc :
    (s : Store) (xs : List ℕ) (x : ℕ)
    → IsList s xs
    → x ≢ 0
    → has x xs ≡ false
    → s.next x ≡ 0
    → IsList (push_back s x) (xs ++ x ∷ [])
unfolding push_back
push_back-snoc s xs x l ne out ends =
    let old : Chain s.next s.head (xs ++ []) = rw append-nil l.chain in
    let end : Chain (store s (last_slot xs) x).next x (x ∷ []) =
      (refl, ne, store-next s xs x x out ∙ ends) in
    simp (==_ne x 0 ne, l.tail)
      (record {
        chain = splice s xs [] (x ∷ []) x l.distinct old end;
        distinct = Distinct-snoc xs x l.distinct out;
        tail = sym (last_slot-append xs x []);
        size = omega (arith, l.size, length-append xs (x ∷ []));
      })

front_tail :
    (s : Store) (xs : List ℕ) (x : ℕ)
    → IsList s xs
    → (if s.head == 0 then next_slot x else s.tail) ≡ last_slot (x ∷ xs)
front_tail s [] x l = ground arith
front_tail s (y ∷ ys) x l = rw (==_ne s.head 0 (ground arith)) l.tail

-- On a list in order, a node that is not null and not in the list goes to the front, whatever its
-- `next` field held, and the list stays in order.
pub push_front-cons :
    (s : Store) (xs : List ℕ) (x : ℕ)
    → IsList s xs
    → x ≢ 0
    → has x xs ≡ false
    → IsList (push_front s x) (x ∷ xs)
unfolding push_front
push_front-cons s xs x l ne out =
    let e : update s.next x s.head x ≡ s.head = ground arith in
    rw (==_ne x 0 ne) (record {
      chain = (refl, ne, rw e (Chain-frame s.next x s.head s.head xs out l.chain));
      distinct = (out, l.distinct);
      tail = front_tail s xs x l;
      size = omega (arith, l.size);
    })

popped_tail :
    (s : Store) (x : ℕ) (xs : List ℕ)
    → IsList s (x ∷ xs)
    → (if slot_eq s.tail (next_slot s.head) then head_slot else s.tail) ≡ last_slot xs
unfolding slot_eq
popped_tail s x [] l = rw (l.tail, l.chain.0, ==_refl x)
popped_tail s x (y ∷ ys) l =
    let e : (last_of y ys == x) ≡ false = ground (arith, ne_last x y ys l.distinct.0) in
    rw (l.tail, l.chain.0, e)

-- From a list in order the first node comes off, and the rest is in order.
pub pop_front-cons :
    (s : Store) (x : ℕ) (xs : List ℕ)
    → IsList s (x ∷ xs)
    → ((pop_front s).0 ≡ x) × IsList (pop_front s).1 xs
unfolding pop_front
pop_front-cons s x xs l = rw (==_ne s.head 0 (ground arith)) (
  l.chain.0,
  record {
    chain = rw (l.chain.0) l.chain.2;
    distinct = l.distinct.1;
    tail = popped_tail s x xs l;
    size = omega (arith, l.size);
  },
)

pub pop_front-nil : (s : Store) → IsList s [] → pop_front s ≡ (0, s)
unfolding pop_front
pop_front-nil s l = ground (arith, l.chain)

-- `delete_list` frees every node once, in order, on fuel beyond their number.
pub delete_list_all :
    (k : ℕ) (next : ℕ → ℕ) (p : ℕ) (xs : List ℕ)
    → length xs < k
    → Chain next p xs
    → delete_list k next p ≡ some xs
unfolding delete_list
delete_list_all zero next p xs h c = absurd (omega arith)
delete_list_all (suc k) next p [] h c = rw c
delete_list_all (suc k) next p (x ∷ xs) h c =
    rw (c.0, ==_ne x 0 c.1, delete_list_all k next (next x) xs (omega arith) c.2)
      (ap (λ q. some (q ∷ xs)) c.0)

-- On a list in order `clear` frees every node once and leaves the empty list in order.
pub clear-nil :
    (s : Store) (xs : List ℕ)
    → IsList s xs
    → (t : Store) × (clear (length xs + 1) s ≡ some (xs, t)) × IsList t []
unfolding clear
clear-nil s xs l =
    let t : Store = record s { head = 0; tail = head_slot; size = 0 } in
    (
      t,
      rw (delete_list_all (length xs + 1) s.next s.head xs (omega arith) l.chain, clear),
      record { chain = refl; distinct = tt; tail = refl; size = refl },
    )

-- `list_size` counts the chain, and `_size` agrees with it.
list_size-Chain :
    (k : ℕ) (next : ℕ → ℕ) (p n : ℕ) (xs : List ℕ)
    → length xs < k
    → Chain next p xs
    → list_size k next p n ≡ some (n + length xs)
unfolding list_size
list_size-Chain zero next p n xs h c = absurd (omega arith)
list_size-Chain (suc k) next p n [] h c = rw c (ap some (omega arith))
list_size-Chain (suc k) next p n (x ∷ xs) h c =
    rw (c.0, ==_ne x 0 c.1, list_size-Chain k next (next x) (n + 1) xs (omega arith) c.2)
      (ap some (omega arith))

last_node-last_of :
    (k : ℕ) (next : ℕ → ℕ) (x : ℕ) (xs : List ℕ)
    → length xs < k
    → Chain next (next x) xs
    → last_node k next x ≡ some (last_of x xs)
unfolding last_node
last_node-last_of zero next x xs h c = absurd (omega arith)
last_node-last_of (suc k) next x [] h c = rw c
last_node-last_of (suc k) next x (y ∷ ys) h c =
    rw (c.0, ==_ne y 0 c.1) (last_node-last_of k next y ys (omega arith) c.2)

-- On a list in order the tail check passes, and the cached size is the length of the chain.
pub validate_tail-IsList :
    (s : Store) (xs : List ℕ)
    → IsList s xs
    → (validate_tail (length xs + 1) s ≡ some true)
      × (list_size (length xs + 1) s.next s.head 0 ≡ some s.size)
unfolding validate_tail slot_eq
validate_tail-IsList s [] l =
    (rw (l.chain, l.tail), rw (list_size-Chain 1 s.next s.head 0 [] (omega arith) l.chain, l.size))
validate_tail-IsList s (x ∷ xs) l = (
  rw (
    l.chain.0,
    ==_ne x 0 l.chain.1,
    last_node-last_of (length (x ∷ xs) + 1) s.next x xs (omega arith) l.chain.2,
    l.tail,
    ==_refl (last_of x xs),
  ),
  rw (list_size-Chain (length (x ∷ xs) + 1) s.next s.head 0 (x ∷ xs) (omega arith) l.chain, l.size)
      (ap some (omega arith)),
)
