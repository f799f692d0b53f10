-- ===== src/SecureServer/Admission.antt =====
-- The steps of a server, and what holds after any history of them.
use async_tcp.Prelude.{
  ℕ, zero, suc, ◌+◌, ◌-◌, ◌%◌, ◌^◌, ◌≤◌, ◌<◌, ◌≡◌, refl, ap, ◌∙◌, ◌≢◌, Bool, true, false, ◌&&◌,
  Option, none, some, List, [], ◌∷◌, inl, inr, arith, ◌==◌, ltb, leb, length, Bool-cases,
  Option-cases, subst,
}
use async_tcp.IntrusiveList.Chain.{has, Distinct}
use async_tcp.ParkQueue.{Slot, Park, Call, park_alloc, free_queued_items, parked_slots}
use async_tcp.ParkQueue.Alloc.{park_alloc-frame, park_alloc-some}
use async_tcp.ParkQueue.Unlink.{
  unlink, has-unlink_ne, has-unlink_self, Distinct-unlink, length-unlink,
}
use async_tcp.SecureServer.{
  Outcome, serve_tls, park_at, accept_tls, find_parked, promote_slot, poll_found, s_poll,
  recv_found, s_recv, s_error, log, is_head, err_ok, err_abrt, ssl_max_connections,
  ssl_queue_idle_ms,
}
use async_tcp.SecureServer.Invariant.{
  Inv, alloc-of_room, park_at-Inv, log-Inv, find_parked-has, shed-Inv, serve_tls-Inv, buffer_rx-Inv,
  promote_from-Inv, drain_items-Inv,
}

-- What lwIP and the sessions do to a server: a connection is accepted, a parked one is polled,
-- receives bytes or a FIN, or fails; a session ends.
pub data Step (s : Park) : Park → Type 0 where
  accepted :
      (o : Outcome) (ready : Bool) (live now pcb r : ℕ) (t : Park)
      → pcb ≢ 0
      → accept_tls o ready live now pcb s ≡ some (r, t)
      → Step s t
  polled : (o : Outcome) (live now pcb : ℕ) → Step s (s_poll o live now pcb s).1
  received : (pcb : ℕ) (pb : List (List ℕ)) → Step s (s_recv pcb pb s).1
  failed : Step s (s_error s)
  session_done : (o : Outcome) (live : ℕ) → Step s (promote_slot o live s).1

pub data Reach (s : Park) : Park → Type 0 where
  here : Reach s s
  next : {t u : Park} → Reach s t → Step t u → Reach s u

-- An accept always finds its slot, and keeps the invariant.
pub accept_tls-Inv :
    (o : Outcome) (ready : Bool) (live now pcb : ℕ) (s : Park)
    → Inv s
    → pcb ≢ 0
    → (r : ℕ) × (t : Park) × (accept_tls o ready live now pcb s ≡ some (r, t)) × Inv t
unfolding accept_tls
accept_tls-Inv o false live now pcb s v ne =
    ((serve_tls o pcb [] s).0, (serve_tls o pcb [] s).1, refl, serve_tls-Inv s v o pcb [])
accept_tls-Inv o true live now pcb s v ne = elim (Bool-cases (leb ssl_max_connections live)) [
  | inr room ↦
      rw room ((serve_tls o pcb [] s).0, (serve_tls o pcb [] s).1, refl, serve_tls-Inv s v o pcb [])
  | inl full ↦ rw full (elim (Bool-cases (ltb s.parked parked_slots)) [
    | inr refused ↦ rw refused (err_abrt, log s (Call.tcp_abort pcb ∷ []), refl, log-Inv s v _)
    | inl place ↦
        let (i, found, out, lt) = alloc-of_room s v (ground arith) in
        let (same, idx) = park_alloc-frame s.pool v.idx in
        let looked : Park = record s { pool = (park_alloc s.pool).1 } in
        let w : Inv looked = record {
          distinct = v.distinct;
          inside = v.inside;
          taken = λ j h. ap (λ (p : Slot). p.pcb == 0) (same j) ∙ v.taken j h;
          counted = v.counted;
          idx = idx;
        } in
        rw (place, found)
          (err_ok, park_at i pcb now looked, refl, park_at-Inv looked w i pcb now lt out ne)
  ])
]

poll_found-Inv :
    (o : Outcome) (live now pcb : ℕ) (slot : Option ℕ) (s : Park)
    → Inv s
    → find_parked s.pool pcb s.pending ≡ slot
    → Inv (poll_found o live now pcb slot s).1
unfolding poll_found promote_slot
poll_found-Inv o live now pcb none s v e = log-Inv s v _
poll_found-Inv o live now pcb (some i) s v e =
    let waited = (now + 2 ^ 32 - (s.pool.slots i).parked_ms) % 2 ^ 32 in
    let queued = (find_parked-has s v pcb i s.pending e).0 in
    elim (Bool-cases (ltb ssl_queue_idle_ms waited)) [
      | inl late ↦ rw late (shed-Inv s v i pcb queued)
      | inr early ↦
          rw early (elim (Bool-cases (is_head i s.pending && ltb live ssl_max_connections)) [
            | inl turn ↦ rw turn (promote_from-Inv o live s.pending s v refl)
            | inr waits ↦ rw waits v
          ])
    ]

recv_found-Inv :
    (pcb : ℕ) (pb : List (List ℕ)) (slot : Option ℕ) (s : Park)
    → Inv s
    → find_parked s.pool pcb s.pending ≡ slot
    → Inv (recv_found pcb pb slot s).1
unfolding recv_found
recv_found-Inv pcb pb none s v e = log-Inv s v _
recv_found-Inv pcb [] (some i) s v e = shed-Inv s v i pcb (find_parked-has s v pcb i s.pending e).0
recv_found-Inv pcb (b ∷ bs) (some i) s v e = buffer_rx-Inv s v i (b ∷ bs)

Step-Inv : {s t : Park} → Step s t → Inv s → Inv t
unfolding s_poll s_recv s_error free_queued_items promote_slot
Step-Inv {s} (accepted o ready live now pcb r t ne e) v =
    let (r', t', f, w) = accept_tls-Inv o ready live now pcb s v ne in
    let same : t' ≡ t = cc in subst Inv same w
Step-Inv {s} (polled o live now pcb) v = poll_found-Inv o live now pcb _ s v refl
Step-Inv {s} (received pcb pb) v = recv_found-Inv pcb pb _ s v refl
Step-Inv {s} failed v = (drain_items-Inv false s.pending s v refl).0
Step-Inv {s} (session_done o live) v = promote_from-Inv o live s.pending s v refl

-- From a state where the queue of a server and the pool agree they agree after any history of that
-- server.
pub Reach-Inv : {s t : Park} → Inv s → Reach s t → Inv t
Reach-Inv v here = v
Reach-Inv v (next r st) = Step-Inv st (Reach-Inv v r)

-- After any history of one server, from a state where its queue and the pool agree, accepting a
-- connection that is not null never writes through a null slot.
pub Reach-accept :
    {s t : Park} (o : Outcome) (ready : Bool) (live now pcb : ℕ)
    → Inv s
    → Reach s t
    → pcb ≢ 0
    → accept_tls o ready live now pcb t ≢ none
Reach-accept {t} o ready live now pcb v r ne e =
    let (_, _, f, _) = accept_tls-Inv o ready live now pcb t (Reach-Inv v r) ne in cc

-- Distinct slots of the pool are no more than the pool has.
length-le_of_inside :
    (n : ℕ) (xs : List ℕ) → Distinct xs → ((i : ℕ) → has i xs ≡ true → i < n) → length xs ≤ n
length-le_of_inside zero [] d h = omega arith
length-le_of_inside zero (x ∷ xs) d h = absurd (omega (arith, h x (ground arith)))
length-le_of_inside (suc n) xs d h = elim (Bool-cases (has n xs)) [
  | inl present ↦
      let rest =
        length-le_of_inside n (unlink n xs) (Distinct-unlink n xs d)
          (λ i q. ground (arith, h i, has-unlink_ne i n xs, has-unlink_self n xs d)) in
      omega (arith, rest, length-unlink n xs present)
  | inr missing ↦
      let rest = length-le_of_inside n xs d (λ i q. ground (arith, h i q)) in omega (arith, rest)
]

-- From a state where the queue of a server and the pool agree, after any history of that server
-- `parked` is the number of connections in its queue, and at most the number of slots.
pub Reach-bounded :
    {s t : Park} → Inv s → Reach s t → (t.parked ≡ length t.pending) × (t.parked ≤ parked_slots)
Reach-bounded {t} v r =
    let w = Reach-Inv v r in
    (
      w.counted,
      omega (arith, w.counted, length-le_of_inside parked_slots t.pending w.distinct w.inside),
    )

-- Where every slot of the pool is taken and all sessions are live, a server with TLS configured
-- whose own count is below the number of slots writes through the null slot.
pub accept_tls-null :
    (o : Outcome) (live now pcb : ℕ) (s : Park)
    → ssl_max_connections ≤ live
    → s.parked < parked_slots
    → s.pool.idx < parked_slots
    → ((i : ℕ) → i < parked_slots → (s.pool.slots i).pcb ≢ 0)
    → accept_tls o true live now pcb s ≡ none
unfolding accept_tls
accept_tls-null o live now pcb s full room idx busy = elim (Option-cases (park_alloc s.pool).0) [
  | inl e ↦ ground (arith, e)
  | inr (i, e) ↦ let (free, lt) = park_alloc-some s.pool i idx e in absurd (busy i lt free)
]
