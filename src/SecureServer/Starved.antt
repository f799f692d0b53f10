-- ===== src/SecureServer/Starved.antt =====
-- The budget of sessions of a TLS server of ESP32 (`liveServeCount` in src/AsyncSecureSession.h),
-- which counts the sessions of clients too, and the clients that connect again
-- (src/AsyncSecureClient.cpp).
use async_tcp.Prelude.{
  ℕ, ◌+◌, ◌%◌, ◌^◌, ◌-◌, ◌≤◌, ◌≡◌, refl, ◌∙◌, true, false, ◌&&◌, Option, none, some, List, [], ◌∷◌,
  ◌++◌, arith, ltb, leb, length, if_holds, subst, sym, Option-cases, inl, inr,
}
use async_tcp.Client.State
use async_tcp.ParkQueue.{
  Call, Park, queue_accept, park_alloc, parked_slots, free_pb, shed_parked_pcb, free_head,
  drain_items, free_queued_items,
}
use async_tcp.SecureServer.{
  Outcome, accept_tls, park_at, dequeue, shed, promote_from, promote_slot, poll_found, s_poll,
  buffer_rx, recv_found, s_recv, s_error, is_head, err_ok, ssl_max_connections, ssl_queue_idle_ms,
  bytes_of, ssl_parked_rx_cap,
}
use async_tcp.SecureServer.Admission.{Step, accepted, polled, received, session_done, Reach}
use async_tcp.SecureClient.Start.{Calls}
use async_tcp.SecureClient.Begin.{Sys, Begin, begins, AreFree, delete_hooks, begins-leaked}

abbrev is_accept : Call → ℕ
is_accept (queue_accept pcb staged) = 1
is_accept _ = 0

-- The accepts that were put into the event queue: the clients that the application hears of.
abbrev pub accepts : List Call → ℕ
accepts [] = 0
accepts (c ∷ cs) = is_accept c + accepts cs

-- A step of a server with TLS configured, at which `liveServeCount()` is at least `n`.
abbrev SeesLive : ℕ → {s t : Park} → Step s t → Type 0
SeesLive n (accepted o ready live now pcb r t ne e) = (ready ≡ true) × (n ≤ live)
SeesLive n (polled o live now pcb) = n ≤ live
SeesLive n (received pcb pb) = Unit {0}
SeesLive n Step.failed = Unit {0}
SeesLive n (session_done o live) = n ≤ live

abbrev pub SeeLive : ℕ → {s t : Park} → Reach s t → Type 0
SeeLive n Reach.here = Unit {0}
SeeLive n (Reach.next r st) = SeeLive n r × SeesLive n st

accepts-append : (xs ys : List Call) → accepts (xs ++ ys) ≡ accepts xs + accepts ys
accepts-append [] ys = omega arith
accepts-append (x ∷ xs) ys = omega (arith, accepts-append xs ys)

accepts-free_pb : (pb : List (List ℕ)) → accepts (free_pb pb) ≡ 0
accepts-free_pb [] = refl
accepts-free_pb (b ∷ bs) = refl

-- A state whose calls are those of `s` and some that queue no accept.
module _ (s : Park) where
  quiet : (cs : List Call) → accepts cs ≡ 0 → accepts (s.calls ++ cs) ≡ accepts s.calls
  quiet cs e = omega (arith, accepts-append s.calls cs, e)

  accepts-shed : (i pcb : ℕ) → accepts (shed i pcb s).calls ≡ accepts s.calls
  unfolding shed dequeue
  accepts-shed i pcb =
      let pb = (s.pool.slots i).pb in
      quiet (free_pb pb ++ shed_parked_pcb pcb)
        (omega (arith, accepts-append (free_pb pb) (shed_parked_pcb pcb), accepts-free_pb pb))

  abbrev IsQuiet : ℕ × Park → Type 0
  IsQuiet r = accepts r.1.calls ≡ accepts s.calls

accepts-drain_items :
    (xs : List ℕ) (s : Park) → accepts (drain_items false xs s).calls ≡ accepts s.calls
unfolding drain_items free_head
accepts-drain_items [] s = refl
accepts-drain_items (i ∷ rest) s =
    let pb = (s.pool.slots i).pb in
    let one = accepts-append (s.calls ++ free_pb pb) [] in
    let two = accepts-append s.calls (free_pb pb) in
    omega (arith, accepts-drain_items rest (free_head false s i rest), one, two, accepts-free_pb pb)

promote_from-IsQuiet :
    (o : Outcome) (live : ℕ) (xs : List ℕ) (s : Park)
    → leb ssl_max_connections live ≡ true
    → IsQuiet s (promote_from o live xs s)
unfolding promote_from
promote_from-IsQuiet o live [] s full = refl
promote_from-IsQuiet o live (i ∷ rest) s full = rw full refl

-- What holds of the result of an accept that does not write through a null slot.
abbrev Quietly : Park → Option (ℕ × Park) → Type 0
Quietly s none = Unit {0}
Quietly s (some r) = IsQuiet s r

park_at-IsQuiet : (i pcb now : ℕ) (s : Park) → IsQuiet s (err_ok, park_at i pcb now s)
unfolding park_at
park_at-IsQuiet i pcb now s =
    quiet s
      (Call.set_arg pcb true
        ∷ Call.set_poll pcb true 4
        ∷ Call.set_recv pcb true
        ∷ Call.set_err pcb true
        ∷ [])
      refl

accept_tls-Quietly :
    (o : Outcome) (live now pcb : ℕ) (s : Park)
    → leb ssl_max_connections live ≡ true
    → Quietly s (accept_tls o true live now pcb s)
unfolding accept_tls
accept_tls-Quietly o live now pcb s full =
    let looked : Park = record s { pool = (park_alloc s.pool).1 } in
    rw full (
      if_holds (Quietly s) (ltb s.parked parked_slots) _ _
        (λ _. elim (Option-cases (park_alloc s.pool).0) [
          | inl e ↦ rw e tt
          | inr (i, e) ↦ rw e (park_at-IsQuiet i pcb now looked)
        ])
        (λ _. quiet s (Call.tcp_abort pcb ∷ []) refl))

poll_found-IsQuiet :
    (o : Outcome) (live now pcb : ℕ) (slot : Option ℕ) (s : Park)
    → leb ssl_max_connections live ≡ true
    → IsQuiet s (poll_found o live now pcb slot s)
unfolding poll_found promote_slot
poll_found-IsQuiet o live now pcb none s full = quiet s (shed_parked_pcb pcb) refl
poll_found-IsQuiet o live now pcb (some i) s full =
    if_holds (IsQuiet s)
      (ltb ssl_queue_idle_ms ((now + 2 ^ 32 - (s.pool.slots i).parked_ms) % 2 ^ 32)) _ _
      (λ _. accepts-shed s i pcb)
      (λ _.
        if_holds (IsQuiet s) (is_head i s.pending && ltb live ssl_max_connections) _ _
          (λ _. promote_from-IsQuiet o live s.pending s full) (λ _. refl))

recv_found-IsQuiet :
    (pcb : ℕ) (pb : List (List ℕ)) (slot : Option ℕ) (s : Park)
    → IsQuiet s (recv_found pcb pb slot s)
unfolding recv_found buffer_rx
recv_found-IsQuiet pcb pb none s = quiet s (free_pb pb) (accepts-free_pb pb)
recv_found-IsQuiet pcb [] (some i) s = accepts-shed s i pcb
recv_found-IsQuiet pcb (b ∷ bs) (some i) s =
    if_holds (IsQuiet s)
      (leb ((s.pool.slots i).pb_len + length (bytes_of (b ∷ bs))) ssl_parked_rx_cap) _ _ (λ _. refl)
      (λ _. quiet s (Call.pbuf_free (b ∷ bs) ∷ []) refl)

Step-accepts :
    (n : ℕ) {s t : Park} (st : Step s t)
    → ssl_max_connections ≤ n
    → SeesLive n st
    → accepts t.calls ≡ accepts s.calls
unfolding s_poll s_recv s_error free_queued_items promote_slot
Step-accepts n {s} (accepted o ready live now pcb r t ne e) full (on, same) = subst (Quietly s) e (
    subst (λ b. Quietly s (accept_tls o b live now pcb s)) (sym on)
      (accept_tls-Quietly o live now pcb s (ground arith)))
Step-accepts n {s} (polled o live now pcb) full same =
    poll_found-IsQuiet o live now pcb _ s (ground arith)
Step-accepts n {s} (received pcb pb) full u = recv_found-IsQuiet pcb pb _ s
Step-accepts n {s} Step.failed full u = accepts-drain_items s.pending s
Step-accepts n {s} (session_done o live) full same =
    promote_from-IsQuiet o live s.pending s (ground arith)

Reach-accepts :
    (n : ℕ) {s t : Park} (r : Reach s t)
    → ssl_max_connections ≤ n
    → SeeLive n r
    → accepts t.calls ≡ accepts s.calls
Reach-accepts n Reach.here full h = refl
Reach-accepts n (Reach.next r st) full (h, g) = Step-accepts n st full g ∙ Reach-accepts n r full h

-- After a client on ESP32 whose every call of `beginSecure` finds it without a pcb and has memory,
-- whatever happens to it between the calls, has called it more often than there are sessions in
-- the budget, and has ended, the TLS server serves nobody: in any history of the server with TLS
-- configured, in which `liveServeCount` is at least the count of sessions that this client leaves,
-- no accept is put into the event queue.
pub begins-starve :
    (c : Calls) (e : State.Env) (b : Begin c e) (bs : List (Begin c e)) (sys : Sys)
    → AreFree c e (b ∷ bs)
    → ssl_max_connections ≤ length bs
    → {s t : Park} (r : Reach s t) → SeeLive (delete_hooks (begins c e (b ∷ bs) sys)).active_count r
    → accepts t.calls ≡ accepts s.calls
begins-starve c e b bs sys f enough r live =
    let leaked = begins-leaked c e b bs sys f in
    Reach-accepts _ r (omega (arith, leaked, enough)) live
