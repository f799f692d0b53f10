-- ===== src/SecureServer/Invariant.antt =====
-- The queue and the pool agree, whatever lwIP and the ends of sessions do.
use async_tcp.Prelude.{
  ℕ, zero, suc, ◌-◌, ◌≤◌, ◌<◌, ◌≡◌, refl, ap, ◌∙◌, ◌≢◌, Bool, true, false, not, some, List, [], ◌∷◌,
  ◌++◌, inl, inr, arith, ◌==◌, leb, if◌then◌else◌, length, length-append, Bool-cases, Option-cases,
}
use async_tcp.IntrusiveList.Chain.{has, has-append, Distinct}
use async_tcp.ParkQueue.{
  free_queued_items, Park, Call, park_alloc, set_slot, free_pb, free_head, drain_items,
  parked_slots,
}
use async_tcp.ParkQueue.Alloc.{park_alloc-none, park_alloc-some}
use async_tcp.ParkQueue.Unlink.{
  unlink, has-unlink_ne, has-unlink_self, Distinct-unlink, length-unlink,
}
use async_tcp.SecureServer.{
  abort_served, Outcome, serve_tls, park_at, find_parked, dequeue, shed, serve_staged, promote_from,
  err_ok, buffer_rx, log, ssl_max_connections,
}

-- With one server on the pool: the queue's slots are distinct, a slot of the pool is taken exactly
-- when it is queued, `parked` counts the queue, and `pool_idx` is in the pool.
pub record Inv (s : Park) : Type 0 where
  pub distinct : Distinct s.pending
  pub inside : (i : ℕ) → has i s.pending ≡ true → i < parked_slots
  pub taken : (i : ℕ) → i < parked_slots → ((s.pool.slots i).pcb == 0) ≡ not (has i s.pending)
  pub counted : s.parked ≡ length s.pending
  pub idx : s.pool.idx < parked_slots

-- A queue that has every slot below n is at least n long.
pub pigeonhole : (n : ℕ) (xs : List ℕ) → ((i : ℕ) → i < n → has i xs ≡ true) → n ≤ length xs
pigeonhole zero xs h = omega arith
pigeonhole (suc n) xs h =
    let shorter = length-unlink n xs (h n (omega arith)) in
    omega (
      arith,
      shorter,
      pigeonhole n (unlink n xs)
          (λ i lt. has-unlink_ne i n xs (λ e. omega arith) ∙ h i (omega arith)),
    )

Distinct-snoc : (xs : List ℕ) (x : ℕ) → Distinct xs → has x xs ≡ false → Distinct (xs ++ x ∷ [])
Distinct-snoc [] x d out = (refl, tt)
Distinct-snoc (y ∷ ys) x d out =
    (ground (arith, has-append y ys (x ∷ [])), Distinct-snoc ys x d.1 (ground arith))

-- A queue with a place left finds a free slot.
pub alloc-of_room :
    (s : Park)
    → Inv s
    → s.parked < parked_slots
    → (i : ℕ) × ((park_alloc s.pool).0 ≡ some i) × (has i s.pending ≡ false) × (i < parked_slots)
alloc-of_room s v room = elim (Option-cases (park_alloc s.pool).0) [
  | inl e ↦
      let full =
        pigeonhole parked_slots s.pending
          (λ i lt. ground (arith, v.taken i lt, park_alloc-none s.pool i v.idx e lt)) in
      absurd (omega (arith, full, v.counted))
  | inr (i, e) ↦
      let (free, lt) = park_alloc-some s.pool i v.idx e in (i, e, ground (arith, v.taken i lt), lt)
]

module _ (s : Park) (v : Inv s) where
  pub park_at-Inv :
      (i pcb now : ℕ)
      → i < parked_slots
      → has i s.pending ≡ false
      → pcb ≢ 0
      → Inv (park_at i pcb now s)
  unfolding park_at
  park_at-Inv i pcb now lt out ne = record {
    distinct = Distinct-snoc s.pending i v.distinct out;
    inside = λ j h. ground (arith, has-append j s.pending (i ∷ []), v.inside j);
    taken = λ j h. ground (arith, has-append j s.pending (i ∷ []), v.taken j h);
    counted = omega (arith, v.counted, length-append s.pending (i ∷ []));
    idx = v.idx;
  }

  dequeue-Inv : (i : ℕ) → has i s.pending ≡ true → Inv (dequeue i s)
  unfolding dequeue
  dequeue-Inv i here = record {
    distinct = Distinct-unlink i s.pending v.distinct;
    inside = λ j h.
        ground
          (arith, v.inside j, has-unlink_ne j i s.pending, has-unlink_self i s.pending v.distinct);
    taken = λ j h.
        ground
          (arith, v.taken j h, has-unlink_ne j i s.pending, has-unlink_self i s.pending v.distinct);
    counted = omega (arith, v.counted, length-unlink i s.pending here);
    idx = v.idx;
  }

  -- The invariant speaks of the pool, the queue and the count only.
  pub log-Inv : (cs : List Call) → Inv (log s cs)
  log-Inv cs = record {
    distinct = v.distinct;
    inside = v.inside;
    taken = v.taken;
    counted = v.counted;
    idx = v.idx;
  }

  pub find_parked-has :
      (pcb i : ℕ) (xs : List ℕ)
      → find_parked s.pool pcb xs ≡ some i
      → (has i xs ≡ true) × ((s.pool.slots i).pcb ≡ pcb)
  unfolding find_parked
  find_parked-has pcb i [] h = cc
  find_parked-has pcb i (x ∷ xs) h = ground (arith, find_parked-has pcb i xs)

module _ (s : Park) (v : Inv s) where
  pub shed-Inv : (i pcb : ℕ) → has i s.pending ≡ true → Inv (shed i pcb s)
  unfolding shed
  shed-Inv i pcb h = log-Inv (dequeue i s) (dequeue-Inv s v i h) _

  pub serve_tls-Inv :
      (o : Outcome) (pcb : ℕ) (staged : List (List ℕ)) → Inv (serve_tls o pcb staged s).1
  unfolding serve_tls
  serve_tls-Inv Outcome.queued pcb staged = log-Inv s v _
  serve_tls-Inv Outcome.no_event pcb staged = log-Inv s v _
  serve_tls-Inv Outcome.no_pcb pcb staged = v
  serve_tls-Inv Outcome.no_client pcb staged = log-Inv s v _

  pub buffer_rx-Inv : (i : ℕ) (pb : List (List ℕ)) → Inv (buffer_rx i pb s).1
  unfolding buffer_rx
  buffer_rx-Inv i pb = record {
    distinct = ground (arith, v.distinct);
    inside = λ j h. ground (arith, v.inside j);
    taken = λ j h. ground (arith, v.taken j h);
    counted = ground (arith, v.counted);
    idx = ground (arith, v.idx);
  }

staged_Inv :
    (r : ℕ × Park) (staged : List (List ℕ))
    → Inv r.1
    → Inv (if r.0 == err_ok then r.1 else log r.1 (free_pb staged))
staged_Inv r staged v = elim (Bool-cases (r.0 == err_ok)) [
  | inl served ↦ rw served v
  | inr failed ↦ rw failed (log-Inv r.1 v (free_pb staged))
]

-- The head of the queue leaves it, and its slot becomes free.
pop-Inv :
    (s t : Park) (i : ℕ) (rest : List ℕ)
    → Inv s
    → s.pending ≡ i ∷ rest
    → t.pending ≡ rest
    → t.parked ≡ s.parked - 1
    → t.pool.idx ≡ s.pool.idx
    → ((j : ℕ) → (t.pool.slots j).pcb ≡ (if j == i then 0 else (s.pool.slots j).pcb))
    → Inv t
pop-Inv s t i rest v e f n x p =
    let d : Distinct (i ∷ rest) = rw e at v.distinct in
    record {
      distinct = rw f d.1;
      inside = λ j h. ground (arith, e, f, v.inside j, ap (has j) e, ap (has j) f);
      taken = λ j h. ground (arith, v.taken j h, ap (has j) e, ap (has j) f, p j, d.0);
      counted = omega (arith, v.counted, n, ap length e, ap length f);
      idx = omega (arith, v.idx, x);
    }

pub drain_items-Inv :
    (abort : Bool) (xs : List ℕ) (s : Park)
    → Inv s
    → s.pending ≡ xs
    → Inv (drain_items abort xs s) × ((drain_items abort xs s).pending ≡ [])
unfolding drain_items free_head
drain_items-Inv abort [] s v e = (
  record {
    distinct = tt;
    inside = λ j h. cc;
    taken = λ j h. v.taken j h ∙ ap (λ xs. not (has j xs)) e;
    counted = v.counted ∙ ap length e;
    idx = v.idx;
  },
  refl,
)
drain_items-Inv abort (i ∷ rest) s v e =
    let t = free_head abort s i rest in
    drain_items-Inv abort rest t (pop-Inv s t i rest v e refl refl refl (λ j. ground arith)) refl

abort_served-Inv : (o : Outcome) (s : Park) → Inv s → Inv (abort_served o s)
unfolding abort_served free_queued_items
abort_served-Inv Outcome.queued s v = v
abort_served-Inv Outcome.no_event s v = v
abort_served-Inv Outcome.no_pcb s v = v
abort_served-Inv Outcome.no_client s v = (drain_items-Inv false s.pending s v refl).0

pub promote_from-Inv :
    (o : Outcome) (live : ℕ) (xs : List ℕ) (s : Park)
    → Inv s
    → s.pending ≡ xs
    → Inv (promote_from o live xs s).1
unfolding promote_from serve_staged
promote_from-Inv o live [] s v e = v
promote_from-Inv o live (i ∷ rest) s v e = elim (Bool-cases (leb ssl_max_connections live)) [
  | inl full ↦ rw full v
  | inr room ↦
      let popped = record s {
        pool = set_slot s.pool i (record (s.pool.slots i) { pcb = 0; pb = [] });
        pending = rest;
        parked = s.parked - 1;
      } in
      let w = pop-Inv s popped i rest v e refl refl refl (λ j. ground arith) in
      let p = s.pool.slots i in
      let served = serve_tls-Inv popped w o p.pcb p.pb in
      rw room (
        staged_Inv
          ((serve_tls o p.pcb p.pb popped).0, abort_served o (serve_tls o p.pcb p.pb popped).1) p.pb
          (abort_served-Inv o (serve_tls o p.pcb p.pb popped).1 served))
]
