-- ===== src/Client/Receive.antt =====
-- `_recv`: what becomes of the bytes of a chain, over its whole loop.
use async_tcp.Prelude.{
  ◌≡◌, refl, sym, ap, subst, ◌∙◌, ◌≢◌, arith, ℕ, ◌+◌, true, false, not, ◌||◌, ◌⊎◌, inl, inr, Option,
  none, some, List, [], ◌∷◌, ◌++◌, ◌==◌, ==_iff, ==_ne, Bool-cases, if◌then◌else◌, length,
}
use async_tcp.Client.State.{
  Sys, Context, Env, free_pbuf, context_at, drop_to, is_valid_at, fresh_context,
}
use async_tcp.Client.Api.{pending_acks, set_contexts}
use async_tcp.Client.Handlers.{
  hand_out, give_data, stamp_packet, recv_turn, recv_loop, free_left, pop_context, recv_end,
  recv_plain,
}
use async_tcp.Client.Window.{credit, acked, credit-log}
use async_tcp.Client.Delivery.{
  total, IsReady, IsTold, Settled, settle-Settled, hand_out-IsTold, give_data-IsTold, IsGentleIf,
}
use async_tcp.Client.Stack.{drop_to_top, context_top, context-valid}

-- What the loop gives for the chain pb, from n bytes acknowledged or owed: it took the first
-- buffers, and left the others only when the connection was closed.
record Got (d n : ℕ) (pb : List ℕ) (r : List ℕ × Sys) : Type 0 where
  taken : List ℕ
  split : pb ≡ taken ++ r.0
  sum : credit r.1 ≡ n + total taken
  end : ((r.0 ≡ []) × IsReady d r.1) ⊎ (r.1.pcb ≡ 0)

Got-cons : (d n b : ℕ) (pb : List ℕ) (r : List ℕ × Sys) → Got d (n + b) pb r → Got d n (b ∷ pb) r
Got-cons d n b pb r g = record {
  taken = b ∷ g.taken;
  split = ap (λ x. b ∷ x) g.split;
  sum = g.sum ∙ omega arith;
  end = g.end;
}

-- The loop stops at a state without a pcb.
Got-stop :
    (d n b : ℕ) (pb : List ℕ) (t : Sys) → IsTold d (n + b) t → t.pcb ≡ 0 → Got d n (b ∷ pb) (pb, t)
Got-stop d n b pb t r dead = record {
  taken = b ∷ [];
  split = refl;
  sum = r.sum ∙ omega arith;
  end = inr dead;
}

-- The loop's test, and what follows on it.
step-Got :
    (d n b : ℕ) (pb : List ℕ) (t : Sys) (rest : List ℕ × Sys)
    → IsTold d (n + b) t
    → (is_valid_at d t.cb_ctx ≡ true → (t.pcb == 0) ≡ false → Got d (n + b) pb rest)
    → Got d n (b ∷ pb) (if not (is_valid_at d t.cb_ctx) || (t.pcb == 0) then (pb, t) else rest)
step-Got d n b pb t rest r next = elim (Bool-cases (t.pcb == 0)) [
  | inl p ↦ elim (Bool-cases (is_valid_at d t.cb_ctx)) [
    | inl v ↦ rw (v, p) (Got-stop d n b pb t r ((==_iff t.pcb 0).0 p))
    | inr v ↦ rw v (Got-stop d n b pb t r ((==_iff t.pcb 0).0 p))
  ]
  | inr p ↦ elim r.alive [
    | inl dead ↦ absurd (ground arith)
    | inr v ↦ rw (v, p) (Got-cons d n b pb rest (next v p))
  ]
]

hand_out-pcb : (d b : ℕ) (o : Option Context) (s : Sys) → (hand_out d b o s).pcb ≡ s.pcb
unfolding hand_out
hand_out-pcb d b none s = refl
hand_out-pcb d b (some c) s = refl

-- A turn with the data callback: where its test is passed, the loop goes on as it began.
record IsTurn (d n : ℕ) (t : Sys × Sys) : Type 0 where
  told : IsTold d n t.0
  next : is_valid_at d (t.0).cb_ctx ≡ true → ((t.0).pcb == 0) ≡ false → Settled d n t.1

recv_turn-IsTurn :
    (e : Env) (d b : ℕ) (s : Sys)
    → IsGentleIf e.recv_cb
    → IsReady d s
    → IsTurn d (credit s + b) (recv_turn e d b none s)
unfolding recv_turn
recv_turn-IsTurn e d b s g r =
    let n = credit s + b in
    let o = context_at d s.cb_ctx in
    let handed = hand_out d b o (stamp_packet s) in
    let told = give_data e.recv_cb b handed in
    let live : (handed.pcb == 0) ≡ false =
      ap (λ x. x == 0) (hand_out-pcb d b o (stamp_packet s)) ∙ r.live in
    let is_told : IsTold d n told =
      give_data-IsTold e.recv_cb d n b handed g (hand_out-IsTold d b s r) live in
    record { told = is_told; next = λ v q. settle-Settled d n told is_told v q }

recv_loop-Got :
    (e : Env) (d : ℕ) (pb : List ℕ) (s : Sys)
    → e.pb_cb ≡ none
    → IsGentleIf e.recv_cb
    → IsReady d s
    → Got d (credit s) pb (recv_loop e d pb s)
unfolding recv_loop
recv_loop-Got e d [] s p g r = record {
  taken = [];
  split = refl;
  sum = omega arith;
  end = inl (refl, r);
}
recv_loop-Got e d (b ∷ pb) s p g r =
    let turn = recv_turn e d b e.pb_cb s in
    let is_turn : IsTurn d (credit s + b) turn =
      subst (λ o. IsTurn d (credit s + b) (recv_turn e d b o s)) (sym p)
        (recv_turn-IsTurn e d b s g r) in
    step-Got d (credit s) b pb turn.0 (recv_loop e d pb turn.1) is_turn.told (λ v q.
      let (ready, sum) = is_turn.next v q in
      subst (λ n. Got d n pb (recv_loop e d pb turn.1)) sum (recv_loop-Got e d pb turn.1 p g ready))

free_left-credit : (left : List ℕ) (s : Sys) → credit (free_left left s) ≡ credit s
unfolding free_left
free_left-credit [] s = refl
free_left-credit (b ∷ pb) s = credit-log (free_pbuf (b ∷ pb)) s refl

free_left-pcb : (left : List ℕ) (s : Sys) → (free_left left s).pcb ≡ s.pcb
unfolding free_left
free_left-pcb [] s = refl
free_left-pcb (b ∷ pb) s = refl

-- A state without a pcb, popped.
pop-dead :
    (d : ℕ) (s : Sys)
    → s.pcb ≡ 0
    → (credit (pop_context d s) ≡ credit s) × ((pop_context d s).pcb ≡ 0)
unfolding pop_context
pop-dead d s p = elim (Bool-cases (is_valid_at d s.cb_ctx)) [
  | inl v ↦ rw v (rw p refl, p)
  | inr v ↦ rw v (refl, p)
]

pop-ready : (d : ℕ) (s : Sys) (r : IsReady d s) → pop_context d s ≡ set_contexts s r.cs
unfolding pop_context
pop-ready d s r =
    ap (λ b. if b then set_contexts s (drop_to d s.cb_ctx) else s)
      (ap (is_valid_at d) r.stack
        ∙ context-valid d (r.c ∷ r.cs) r.c (context_top d r.c r.cs r.depth)
        ∙ r.valid)
    ∙ ap (set_contexts s) (ap (drop_to d) r.stack ∙ drop_to_top d r.c r.cs r.depth)

-- A context with nothing in hand leaves the sum as it is.
ready-credit : (d : ℕ) (s : Sys) (r : IsReady d s) → credit (set_contexts s r.cs) ≡ credit s
ready-credit d s r =
    let same : pending_acks r.cs ≡ pending_acks s.cb_ctx =
      omega (arith, r.idle) ∙ sym (ap pending_acks r.stack) in
    ap (λ x. acked s.calls + (if s.pcb == 0 then 0 else s.rx_ack_len + x)) same

-- What `_recv` did with a chain, from n bytes acknowledged or owed and d contexts.
pub record Received (d n : ℕ) (pb : List ℕ) (t : Sys) : Type 0 where
  pub taken : List ℕ
  pub left : List ℕ
  pub split : pb ≡ taken ++ left
  pub sum : credit t ≡ n + total taken
  pub end : ((left ≡ []) × (length t.cb_ctx ≡ d)) ⊎ (t.pcb ≡ 0)

Received-dead :
    (d n : ℕ) (pb : List ℕ) (r : List ℕ × Sys) (g : Got d n pb r)
    → (r.1).pcb ≡ 0
    → Received d n pb (recv_end d r)
Received-dead d n pb (left, s) g dead =
    let freed = free_left left s in
    let popped = pop-dead d freed (free_left-pcb left s ∙ dead) in
    record {
      taken = g.taken;
      left = left;
      split = g.split;
      sum = popped.0 ∙ free_left-credit left s ∙ g.sum;
      end = inr popped.1;
    }

Received-whole :
    (d n : ℕ) (pb : List ℕ) (r : List ℕ × Sys) (g : Got d n pb r)
    → r.0 ≡ []
    → IsReady d r.1
    → Received d n pb (recv_end d r)
unfolding free_left
Received-whole d n pb (left, s) g p r =
    let popped : recv_end d (left, s) ≡ set_contexts s r.cs =
      ap (λ l. pop_context d (free_left l s)) p ∙ pop-ready d s r in
    record {
      taken = g.taken;
      left = left;
      split = g.split;
      sum = ap credit popped ∙ ready-credit d s r ∙ g.sum;
      end = inl (p, ap (λ t. length t.cb_ctx) popped ∙ r.depth);
    }

recv_end-Received :
    (d n : ℕ) (pb : List ℕ) (r : List ℕ × Sys) → Got d n pb r → Received d n pb (recv_end d r)
recv_end-Received d n pb r g = elim g.end [
  | inl whole ↦ Received-whole d n pb r g whole.0 whole.1
  | inr dead ↦ Received-dead d n pb r g dead
]

entered_credit : (s : Sys) → credit (set_contexts s (fresh_context ∷ s.cb_ctx)) ≡ credit s
entered_credit s =
    ap (λ x. acked s.calls + (if s.pcb == 0 then 0 else s.rx_ack_len + x)) (omega arith)

-- On an open connection without a packet callback, with a data callback that is null or keeps the
-- sum of the bytes acknowledged and owed and the stack of contexts, `_recv` (past the TLS hook)
-- hands over a first part of the chain, and the sum grows by that part's length: each of its bytes
-- is acknowledged or owed, once. The part is the whole chain, and the stack of contexts is as deep
-- as before, unless the connection was closed on the way.
pub recv_plain-Received :
    (e : Env) (pb : List ℕ) (s : Sys)
    → e.pb_cb ≡ none
    → IsGentleIf e.recv_cb
    → s.pcb ≢ 0
    → Received (length s.cb_ctx) (credit s) pb (recv_plain e pb s)
unfolding recv_plain
recv_plain-Received e pb s p g live =
    let d = length s.cb_ctx in
    let entered = set_contexts s (fresh_context ∷ s.cb_ctx) in
    subst (λ n. Received d n pb (recv_plain e pb s)) (entered_credit s)
      (recv_end-Received d (credit entered) pb (recv_loop e d pb entered) (
        recv_loop-Got e d pb entered p g (record {
          c = fresh_context;
          cs = s.cb_ctx;
          stack = refl;
          depth = refl;
          valid = refl;
          idle = refl;
          live = ==_ne s.pcb 0 live;
        })))
