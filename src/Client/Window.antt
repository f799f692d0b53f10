-- ===== src/Client/Window.antt =====
-- The receive window: what a client has acknowledged to lwIP, and what it still owes.
use async_tcp.Prelude.{
  ◌≡◌, refl, ap, ◌∙◌, arith, ℕ, ◌+◌, ◌-◌, ◌≤◌, ==_iff, Bool-cases, inl, inr, true, false, Option,
  none, some, List, [], ◌∷◌, ◌++◌, ◌==◌, if◌then◌else◌, ltb,
}
use async_tcp.Client.State.{
  Sys, Hooks, Env, Call, unbind, do_close, do_abort, recved, told_disconnect, told_server, log,
  tell, err_ok, err_conn,
}
use async_tcp.Client.Transport.{tcp_recved, tcp_close, close_pcb, reset_tcp_callbacks, purge_events}
use async_tcp.Client.Api.{
  closing_with, closing_hook, close, close_transport, tell_closed, drop_token, pending_acks, ack,
  ack_pending,
}

-- The bytes of a call to `tcp_recved`.
abbrev pub opened : Call → ℕ
opened (recved pcb len) = len
opened _ = 0

-- The bytes by which lwIP's window was opened again.
abbrev pub acked : List Call → ℕ
acked [] = 0
acked (c ∷ cs) = opened c + acked cs

-- The bytes acknowledged and, while the client has a pcb, those that it still owes.
abbrev pub credit : Sys → ℕ
credit s = acked s.calls + (if s.pcb == 0 then 0 else s.rx_ack_len + pending_acks s.cb_ctx)

acked_append : (cs ds : List Call) → acked (cs ++ ds) ≡ acked cs + acked ds
acked_append [] ds = omega arith
acked_append (c ∷ cs) ds = rw (acked_append cs ds) (omega arith)

pub acked_snoc : (cs : List Call) (c : Call) → acked (cs ++ c ∷ []) ≡ acked cs + opened c
acked_snoc cs c = rw (acked_append cs (c ∷ [])) (omega arith)

pub tcp_recved-live :
    (n : ℕ) (s : Sys) → (s.pcb == 0) ≡ false → (tcp_recved n s).1 ≡ log (recved s.pcb n) s
unfolding tcp_recved
tcp_recved-live n s p = rw p refl

pub tcp_recved-dead : (n : ℕ) (s : Sys) → (s.pcb == 0) ≡ true → (tcp_recved n s).1 ≡ s
unfolding tcp_recved
tcp_recved-dead n s p = rw p refl

-- A state that is s but for what it owes, from which n bytes are acknowledged.
abbrev pay : ℕ → Sys → Sys
pay n s = record s { client = record s.client { rx_ack_len = s.rx_ack_len - n } }

pay-live :
    (n : ℕ) (s : Sys)
    → (s.pcb == 0) ≡ false
    → n ≤ s.rx_ack_len
    → credit (pay n (log (recved s.pcb n) s)) ≡ credit s
pay-live n s p le = rw (acked_snoc s.calls (recved s.pcb n), p) (omega arith)

pay-dead : (n : ℕ) (s : Sys) → (s.pcb == 0) ≡ true → credit (pay n s) ≡ credit s
pay-dead n s p = rw p refl

pay-none : (s : Sys) → credit (pay 0 s) ≡ credit s
pay-none s =
    ap (λ x. acked s.calls + (if s.pcb == 0 then 0 else x + pending_acks s.cb_ctx)) (omega arith)

credit-pay :
    (n : ℕ) (s : Sys)
    → n ≤ s.rx_ack_len
    → credit (pay n (if n == 0 then s else (tcp_recved n s).1)) ≡ credit s
credit-pay n s le = elim (Bool-cases (n == 0)) [
  | inl z ↦ rw (z, (==_iff n 0).0 z) (pay-none s)
  | inr z ↦ elim (Bool-cases (s.pcb == 0)) [
    | inl p ↦ rw (z, tcp_recved-dead n s p) (pay-dead n s p)
    | inr p ↦ rw (z, tcp_recved-live n s p) (pay-live n s p le)
  ]
]

-- `ack` keeps the sum of the bytes acknowledged and, while there is a pcb, owed.
pub credit-ack : (len : ℕ) (s : Sys) → credit (ack len s).1 ≡ credit s
unfolding ack
credit-ack len s = credit-pay (if ltb s.rx_ack_len len then s.rx_ack_len else len) s (ground arith)

-- f acknowledges exactly what it stops owing.
unfoldable pub Keeps : (Sys → Sys) → Type 0
Keeps f = (s : Sys) → credit (f s) ≡ credit s

-- The callback, if there is one, does.
unfoldable pub KeepsIf : Option (Sys → Sys) → Type 0
KeepsIf cb = (f : Sys → Sys) → cb ≡ some f → Keeps f

-- A TLS teardown, if there is one, acknowledges nothing.
unfoldable pub IsSilent : Option Hooks → Type 0
IsSilent hooks =
    (h : Hooks) → hooks ≡ some h → (s : Sys) → acked (h.on_closing s).calls ≡ acked s.calls

closing-acked :
    (o : Option Hooks) (s : Sys) → IsSilent o → acked (closing_with o s).calls ≡ acked s.calls
unfolding closing_with IsSilent
closing-acked none s q = refl
closing-acked (some h) s q = elim (Bool-cases (s.pcb == 0)) [
  | inl p ↦ rw p refl
  | inr p ↦ rw p (q h refl s)
]

pub log_acked : (c : Call) (s : Sys) → opened c ≡ 0 → acked (log c s).calls ≡ acked s.calls
log_acked c s z = acked_snoc s.calls c ∙ rw z (omega arith)

pub credit-log : (c : Call) (s : Sys) → opened c ≡ 0 → credit (log c s) ≡ credit s
credit-log c s z =
    ap (λ x. x + (if s.pcb == 0 then 0 else s.rx_ack_len + pending_acks s.cb_ctx)) (log_acked c s z)

credit-tell :
    (o : Option (Sys → Sys)) (c : Call) (s : Sys)
    → KeepsIf o
    → opened c ≡ 0
    → credit (tell o c s) ≡ credit s
unfolding KeepsIf Keeps
credit-tell none c s k z = refl
credit-tell (some f) c s k z = k f refl (log c s) ∙ credit-log c s z

close_pcb_acked : (e : Env) (s : Sys) → acked (close_pcb e s).calls ≡ acked s.calls
unfolding close_pcb
close_pcb_acked e s =
    let closed = log (do_close s.pcb) s in
    elim (Bool-cases (e.tcp_close s == 0)) [
      | inl p ↦ rw p (log_acked (do_close s.pcb) s refl)
      | inr p ↦ rw p (log_acked (do_abort s.pcb) closed refl ∙ log_acked (do_close s.pcb) s refl)
    ]

reset-acked : (s : Sys) → acked (reset_tcp_callbacks s).calls ≡ acked s.calls
unfolding reset_tcp_callbacks purge_events
reset-acked s = log_acked (unbind s.pcb) s refl

-- The dead branch of `_tcp_close` changes neither.
close-dead :
    (n : ℕ) (s : Sys) (P : ℕ × Sys → Type 0)
    → ((err : ℕ) → P (err, s))
    → P (if n == 0 then (err_conn, s) else (err_ok, s))
close-dead n s P all = elim (Bool-cases (n == 0)) [
  | inl p ↦ rw p (all err_conn)
  | inr p ↦ rw p (all err_ok)
]

-- A closed transport has no pcb, and has acknowledged nothing more.
abbrev Closed : ℕ → ℕ × Sys → Type 0
Closed n (err, t) = (t.pcb ≡ 0) × (acked t.calls ≡ n)

tcp_close-Closed : (e : Env) (s : Sys) → Closed (acked s.calls) (tcp_close e s)
unfolding tcp_close purge_events
tcp_close-Closed e s = elim (Bool-cases (s.pcb == 0)) [
  | inl p ↦ rw p (close-dead _ _ (Closed (acked s.calls)) (λ err. ((==_iff s.pcb 0).0 p, refl)))
  | inr p ↦ rw p (refl, close_pcb_acked e (reset_tcp_callbacks s) ∙ reset-acked s)
]

tell_closed-credit :
    (e : Env) (r : ℕ × Sys)
    → KeepsIf e.discard_cb
    → KeepsIf e.server_discard_cb
    → credit (tell_closed e r).1 ≡ credit r.1
unfolding tell_closed
tell_closed-credit e (err, s) k l = elim (Bool-cases (err == err_ok)) [
  | inl p ↦ rw p (
      credit-tell e.server_discard_cb told_server (tell e.discard_cb told_disconnect s) l refl
      ∙ credit-tell e.discard_cb told_disconnect s k refl)
  | inr p ↦ rw p refl
]

credit-Closed : (n : ℕ) (r : ℕ × Sys) → Closed n r → credit r.1 ≡ n
credit-Closed n (err, s) (p, q) = rw (p, q) (omega arith)

-- What `close` acknowledges first is all that was owed.
ack_pending-acked : (s : Sys) → acked (ack_pending s).calls ≡ credit s
unfolding ack_pending
ack_pending-acked s =
    let owed = s.rx_ack_len + pending_acks s.cb_ctx in
    let cleared = record s { client = record s.client { rx_ack_len = 0 } } in
    elim (Bool-cases (s.pcb == 0)) [
      | inl p ↦ rw p (omega arith)
      | inr p ↦ elim (Bool-cases (owed == 0)) [
        | inl z ↦ rw (p, z, (==_iff owed 0).0 z) (omega arith)
        | inr z ↦ rw (p, z, tcp_recved-live owed cleared p) (acked_snoc s.calls (recved s.pcb owed))
      ]
    ]

-- Where the TLS teardown acknowledges nothing and the disconnect callbacks keep it, `close` keeps
-- the sum of the bytes acknowledged and, while there is a pcb, owed, the bytes of the callbacks
-- that are running included.
pub close-credit :
    (e : Env) (s : Sys)
    → IsSilent e.hooks
    → KeepsIf e.discard_cb
    → KeepsIf e.server_discard_cb
    → credit (close e s) ≡ credit s
unfolding close close_transport
close-credit e s quiet k l =
    let t = ack_pending (drop_token s) in
    tell_closed-credit e (tcp_close e (closing_hook e t)) k l
    ∙ credit-Closed (acked (closing_hook e t).calls) (tcp_close e (closing_hook e t))
        (tcp_close-Closed e (closing_hook e t))
    ∙ closing-acked e.hooks t quiet
    ∙ ack_pending-acked (drop_token s)
