-- ===== src/SecureServer/Staging.antt =====
-- The bytes buffered for a parked connection, its promotion, and a burst of accepts.
use async_tcp.Prelude.{
  ℕ, ◌+◌, ◌≤◌, ◌<◌, ◌≡◌, refl, ap, ◌∙◌, sym, true, false, Option, none, some, List, [], ◌∷◌, ◌++◌,
  arith, leb, length, length-append, append_assoc, append-nil,
}
use async_tcp.ParkQueue.{Pool, Park, Call, bind_client, queue_accept, pbuf_free}
use async_tcp.SecureServer.{
  Outcome, queued, serve_tls, accept_tls, find_parked, abort_served, serve_staged, promote_slot,
  promote_from, buffer_rx, recv_found, s_recv, bytes_of, log, err_ok, ssl_max_connections,
  ssl_parked_rx_cap,
}

-- The connection waits in slot i, whose length on record is that of its buffers, under the cap.
pub record Waits (s : Park) (pcb i : ℕ) : Type 0 where
  pub found : find_parked s.pool pcb s.pending ≡ some i
  pub measured : (s.pool.slots i).pb_len ≡ length (bytes_of (s.pool.slots i).pb)
  pub capped : (s.pool.slots i).pb_len ≤ ssl_parked_rx_cap

bytes_of-append : (xs ys : List (List ℕ)) → bytes_of (xs ++ ys) ≡ bytes_of xs ++ bytes_of ys
bytes_of-append [] ys = refl
bytes_of-append (x ∷ xs) ys = rw (bytes_of-append xs ys, append_assoc)

find_parked-cong :
    (p q : Pool) (pcb : ℕ) (xs : List ℕ)
    → ((j : ℕ) → (q.slots j).pcb ≡ (p.slots j).pcb)
    → find_parked q pcb xs ≡ find_parked p pcb xs
unfolding find_parked
find_parked-cong p q pcb [] h = refl
find_parked-cong p q pcb (x ∷ xs) h = rw (h x, find_parked-cong p q pcb xs h)

module _ (s : Park) (pcb i : ℕ) (b : List ℕ) (bs : List (List ℕ)) (w : Waits s pcb i) where
  -- For a connection that waits in a slot whose length on record is right and under the cap, a
  -- chunk that fits under the cap is chained behind the bytes that wait, and this stays so.
  pub s_recv-fits :
      (s.pool.slots i).pb_len + length (bytes_of (b ∷ bs)) ≤ ssl_parked_rx_cap
      → let t = (s_recv pcb (b ∷ bs) s).1 in
        Waits t pcb i × ((t.pool.slots i).pb ≡ (s.pool.slots i).pb ++ (b ∷ bs))
  unfolding s_recv recv_found buffer_rx
  s_recv-fits fits =
      let p = s.pool.slots i in
      let under : leb (p.pb_len + length (bytes_of (b ∷ bs))) ssl_parked_rx_cap ≡ true =
        ground arith in
      rw (w.found, under)
        (
          record {
            found = find_parked-cong s.pool _ pcb s.pending (λ j. ground arith) ∙ w.found;
            measured = ground (
              arith,
              w.measured,
              ap length (bytes_of-append p.pb (b ∷ bs)),
              length-append (bytes_of p.pb) (bytes_of (b ∷ bs)),
            );
            capped = ground arith;
          },
          ground arith,
        )

  -- A chunk that does not fit is freed, and its bytes are in no buffer.
  pub s_recv-over :
      ssl_parked_rx_cap < (s.pool.slots i).pb_len + length (bytes_of (b ∷ bs))
      → s_recv pcb (b ∷ bs) s ≡ (err_ok, log s (pbuf_free (b ∷ bs) ∷ []))
  unfolding s_recv recv_found buffer_rx
  s_recv-over over =
      let past : leb ((s.pool.slots i).pb_len + length (bytes_of (b ∷ bs))) ssl_parked_rx_cap
          ≡ false =
        ground arith in
      rw (w.found, past)

-- For a connection that waits in a slot whose length on record is right and under the cap, a chunk
-- over the cap is not buffered, and a later one that fits is chained directly behind the bytes
-- from before both.
pub s_recv-gap :
    (s : Park) (pcb i : ℕ) (b c : List ℕ) (bs cs : List (List ℕ))
    → Waits s pcb i
    → ssl_parked_rx_cap < (s.pool.slots i).pb_len + length (bytes_of (b ∷ bs))
    → (s.pool.slots i).pb_len + length (bytes_of (c ∷ cs)) ≤ ssl_parked_rx_cap
    → ((s_recv pcb (c ∷ cs) (s_recv pcb (b ∷ bs) s).1).1.pool.slots i).pb
      ≡ (s.pool.slots i).pb ++ (c ∷ cs)
s_recv-gap s pcb i b c bs cs w over fits =
    let logged = log s (pbuf_free (b ∷ bs) ∷ []) in
    let w' : Waits logged pcb i = record {
      found = w.found;
      measured = w.measured;
      capped = w.capped;
    } in
    rw (s_recv-over s pcb i b bs w over) (s_recv-fits logged pcb i c cs w' fits).1

-- With a session free and memory for the client and its event, the oldest parked connection is
-- served with all the bytes buffered for it, in order, and leaves the queue.
pub promote_slot-serves :
    (s : Park) (i live : ℕ) (rest : List ℕ)
    → s.pending ≡ i ∷ rest
    → live < ssl_max_connections
    → let r = promote_slot queued live s in
      let p = s.pool.slots i in
      (r.0 ≡ err_ok)
      × (r.1.pending ≡ rest)
      × (r.1.calls ≡ s.calls ++ (bind_client p.pcb ∷ queue_accept p.pcb p.pb ∷ []))
unfolding promote_slot promote_from serve_staged serve_tls abort_served
promote_slot-serves s i live rest e room =
    let open_slot : leb ssl_max_connections live ≡ false = ground arith in
    rw (e, promote_from, open_slot) (refl, refl, refl)

promote_from_full :
    (o : Outcome) (live : ℕ) (xs : List ℕ) (s : Park)
    → ssl_max_connections ≤ live
    → promote_from o live xs s ≡ (err_ok, s)
unfolding promote_from
promote_from_full o live [] s full = refl
promote_from_full o live (i ∷ rest) s full =
    let closed : leb ssl_max_connections live ≡ true = ground arith in rw closed

-- While the sessions are all live nothing is promoted.
pub promote_slot-full :
    (s : Park) (o : Outcome) (live : ℕ)
    → ssl_max_connections ≤ live
    → promote_slot o live s ≡ (err_ok, s)
unfolding promote_slot
promote_slot-full s o live full = promote_from_full o live s.pending s full

-- Connections accepted one after the other, before the async task builds any session.
pub accept_burst : ℕ → ℕ → List ℕ → Park → Option Park
accept_burst live now [] s = some s
accept_burst live now (pcb ∷ pcbs) s = elim (accept_tls queued true live now pcb s) [
  | none ↦ none
  | some (r, t) ↦ accept_burst live now pcbs t
]

abbrev pub served : List ℕ → List Call
served [] = []
served (pcb ∷ pcbs) = bind_client pcb ∷ queue_accept pcb [] ∷ served pcbs

accept_open :
    (live now pcb : ℕ) (s : Park)
    → live < ssl_max_connections
    → accept_tls queued true live now pcb s
      ≡ some (err_ok, log s (bind_client pcb ∷ queue_accept pcb [] ∷ []))
unfolding accept_tls serve_tls
accept_open live now pcb s room =
    let open_slot : leb ssl_max_connections live ≡ false = ground arith in rw open_slot

-- While the count of sessions that the gate reads is below its limit and memory lasts, any number
-- of connections accepted in a row is queued for a session each, and none is parked.
pub accept_burst-serves :
    (live now : ℕ) (pcbs : List ℕ) (s : Park)
    → live < ssl_max_connections
    → accept_burst live now pcbs s ≡ some (log s (served pcbs))
unfolding accept_burst
accept_burst-serves live now [] s room =
    ap (λ cs. some (record s { calls = cs })) (sym (append-nil s.calls))
accept_burst-serves live now (pcb ∷ pcbs) s room =
    let first = bind_client pcb ∷ queue_accept pcb [] ∷ [] in
    rw (accept_open live now pcb s room, accept_burst)
      (accept_burst-serves live now pcbs (log s first) room
        ∙ ap (λ cs. some (record s { calls = cs })) (append_assoc s.calls first (served pcbs)))
