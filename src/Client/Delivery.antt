-- ===== src/Client/Delivery.antt =====
-- `_recv`: what becomes of the bytes of a chain.
use async_tcp.Prelude.{
  ◌≡◌, refl, sym, ap, subst, ◌∙◌, arith, ℕ, suc, ◌+◌, true, false, ◌⊎◌, inl, inr, Option, none,
  some, List, [], ◌∷◌, ◌==◌, Bool-cases, if◌then◌else◌, length,
}
use async_tcp.Client.State.{
  Sys, Context, Call, free_pbuf, told_data, log, context_at, is_valid_at, recved,
}
use async_tcp.Client.Transport.{tcp_recved}
use async_tcp.Client.Api.{pending_acks, set_contexts}
use async_tcp.Client.Handlers.{hand_out, settle, give_data, stamp_packet, set_context_at}
use async_tcp.Client.Stack.{
  context_top, set_context_top, context-valid, TopContext, top_context, context_here, set_here,
}
use async_tcp.Client.Window.{opened, credit, acked, credit-log, tcp_recved-live, acked_snoc}

abbrev pub total : List ℕ → ℕ
total [] = 0
total (b ∷ bs) = b + total bs

-- A data callback that keeps what is acknowledged and owed and the stack of contexts, and that
-- destroys the client only with its connection closed.
unfoldable pub IsGentle : (ℕ → Sys → Sys) → Type 0
IsGentle f =
    (b : ℕ) (s : Sys)
    → (credit (f b s) ≡ credit s)
      × ((length (f b s).cb_ctx ≡ length s.cb_ctx)
          × ((d : ℕ)
              → is_valid_at d s.cb_ctx ≡ true
              → ((f b s).pcb ≡ 0) ⊎ (is_valid_at d (f b s).cb_ctx ≡ true)))

-- The loop may take the next pbuf: its context c is on top of d others, with nothing in hand.
pub record IsReady (d : ℕ) (s : Sys) : Type 0 where
  pub c : Context
  pub cs : List Context
  pub stack : s.cb_ctx ≡ c ∷ cs
  pub depth : length cs ≡ d
  pub valid : c.client_is_valid ≡ true
  pub idle : c.ack_len ≡ 0
  pub live : (s.pcb == 0) ≡ false

-- A state in the middle of the body, with n bytes acknowledged or owed in all.
pub record IsTold (d n : ℕ) (t : Sys) : Type 0 where
  pub sum : credit t ≡ n
  pub size : length t.cb_ctx ≡ suc d
  pub alive : (t.pcb ≡ 0) ⊎ (is_valid_at d t.cb_ctx ≡ true)

hand_out-top :
    (d b : ℕ) (s : Sys) (c : Context) (cs : List Context)
    → s.cb_ctx ≡ c ∷ cs
    → length cs ≡ d
    → hand_out d b (context_at d s.cb_ctx) (stamp_packet s)
      ≡ set_contexts (stamp_packet s) (record c { ack_later = false; ack_len = b } ∷ cs)
unfolding hand_out
hand_out-top d b s c cs p q =
    rw
      (
        p,
        context_top d c cs q,
        set_context_top d (record c { ack_later = false; ack_len = b }) c cs q,
      )
      refl

handed-IsTold :
    (d b : ℕ) (s : Sys) (r : IsReady d s)
    → IsTold d
        (credit s + b)
        (set_contexts (stamp_packet s) (record r.c { ack_later = false; ack_len = b } ∷ r.cs))
handed-IsTold d b s r =
    let k = record r.c { ack_later = false; ack_len = b } in
    record {
      sum = rw (r.live, r.stack, r.idle) (omega arith);
      size = omega (arith, r.depth);
      alive = inr (context-valid d (k ∷ r.cs) k (context_top d k r.cs r.depth) ∙ r.valid);
    }

pub hand_out-IsTold :
    (d b : ℕ) (s : Sys)
    → IsReady d s
    → IsTold d (credit s + b) (hand_out d b (context_at d s.cb_ctx) (stamp_packet s))
hand_out-IsTold d b s r =
    subst (IsTold d (credit s + b)) (sym (hand_out-top d b s r.c r.cs r.stack r.depth))
      (handed-IsTold d b s r)

log-IsTold : (d n : ℕ) (c : Call) (s : Sys) → opened c ≡ 0 → IsTold d n s → IsTold d n (log c s)
log-IsTold d n c s z r = record { sum = credit-log c s z ∙ r.sum; size = r.size; alive = r.alive }

-- A callback that is null, or gentle.
unfoldable pub IsGentleIf : Option (ℕ → Sys → Sys) → Type 0
IsGentleIf o = (f : ℕ → Sys → Sys) → o ≡ some f → IsGentle f

gentle-IsTold :
    (d n b : ℕ) (f : ℕ → Sys → Sys) (s : Sys)
    → IsGentle f
    → IsTold d n s
    → (s.pcb == 0) ≡ false
    → IsTold d n (f b s)
unfolding IsGentle
gentle-IsTold d n b f s g r live =
    let (p, (q, h)) = g b s in
    record {
      sum = p ∙ r.sum;
      size = q ∙ r.size;
      alive = elim r.alive [ inl dead ↦ absurd (ground arith) | inr v ↦ h d v ];
    }

pub give_data-IsTold :
    (o : Option (ℕ → Sys → Sys)) (d n b : ℕ) (s : Sys)
    → IsGentleIf o
    → IsTold d n s
    → (s.pcb == 0) ≡ false
    → IsTold d n (give_data o b s)
unfolding give_data IsGentleIf
give_data-IsTold none d n b s g r live = log-IsTold d n (free_pbuf (b ∷ [])) s refl r
give_data-IsTold (some f) d n b s g r live = elim (Bool-cases (s.facade == 0)) [
  | inl p ↦ rw p (log-IsTold d n (free_pbuf (b ∷ [])) s refl r)
  | inr p ↦ rw p (
      log-IsTold d n (free_pbuf (b ∷ [])) (f b (log (told_data b) s)) refl (
        gentle-IsTold d n b f (log (told_data b) s) (g f refl)
          (log-IsTold d n (told_data b) s refl r) live))
]

-- What `settle` leaves: the context is on top with nothing in hand.
abbrev pub Settled : ℕ → ℕ → Sys → Type 0
Settled d n u = IsReady d u × (credit u ≡ n)

abbrev emptied : Context → Context
emptied c = record c { ack_len = 0 }

abbrev postponed : ℕ → Sys → Sys
postponed n t = record t { client = record t.client { rx_ack_len = t.rx_ack_len + n } }

settle-later :
    (d : ℕ) (t : Sys) (c : Context) (rest : List Context)
    → t.cb_ctx ≡ c ∷ rest
    → length rest ≡ d
    → c.ack_later ≡ true
    → settle d (context_at d t.cb_ctx) t ≡ set_contexts (postponed c.ack_len t) (emptied c ∷ rest)
unfolding settle
settle-later d t c rest p q a =
    ap (λ o. settle d o t) (context_here d t c rest p q)
    ∙ ap
        (λ b.
          set_context_at d (emptied c)
            (if b then postponed c.ack_len t else (tcp_recved c.ack_len t).1))
        a
    ∙ set_here d (postponed c.ack_len t) (emptied c) c rest p q

settle-now :
    (d : ℕ) (t : Sys) (c : Context) (rest : List Context)
    → t.cb_ctx ≡ c ∷ rest
    → length rest ≡ d
    → c.ack_later ≡ false
    → (t.pcb == 0) ≡ false
    → settle d (context_at d t.cb_ctx) t
      ≡ set_contexts (log (recved t.pcb c.ack_len) t) (emptied c ∷ rest)
unfolding settle
settle-now d t c rest p q a live =
    ap (λ o. settle d o t) (context_here d t c rest p q)
    ∙ ap
        (λ b.
          set_context_at d (emptied c)
            (if b then postponed c.ack_len t else (tcp_recved c.ack_len t).1))
        a
    ∙ ap (set_context_at d (emptied c)) (tcp_recved-live c.ack_len t live)
    ∙ set_here d (log (recved t.pcb c.ack_len) t) (emptied c) c rest p q

-- What a state with a pcb has acknowledged and owes, by the context on top.
pub credit-live :
    (n : ℕ) (t : Sys) (c : Context) (rest : List Context)
    → t.cb_ctx ≡ c ∷ rest
    → (t.pcb == 0) ≡ false
    → credit t ≡ n
    → acked t.calls + (t.rx_ack_len + (c.ack_len + pending_acks rest)) ≡ n
credit-live n t c rest p live r =
    sym (
      ap (λ b. acked t.calls + (if b then 0 else t.rx_ack_len + pending_acks t.cb_ctx)) live
      ∙ ap (λ z. acked t.calls + (t.rx_ack_len + pending_acks z)) p)
    ∙ r

pub settle-Settled :
    (d n : ℕ) (t : Sys)
    → IsTold d n t
    → is_valid_at d t.cb_ctx ≡ true
    → (t.pcb == 0) ≡ false
    → Settled d n (settle d (context_at d t.cb_ctx) t)
settle-Settled d n t r v live =
    let top : TopContext d t.cb_ctx = top_context d t.cb_ctx r.size v in
    let owed : acked t.calls + (t.rx_ack_len + (top.c.ack_len + pending_acks top.rest)) ≡ n =
      credit-live n t top.c top.rest top.stack live r.sum in
    elim (Bool-cases top.c.ack_later) [
      | inl a ↦ subst (Settled d n) (sym (settle-later d t top.c top.rest top.stack top.depth a)) (
        record {
          c = emptied top.c;
          cs = top.rest;
          stack = refl;
          depth = top.depth;
          valid = top.valid;
          idle = refl;
          live = live;
        },
        rw live (omega (arith, owed)),
      )
      | inr a ↦
          subst (Settled d n) (sym (settle-now d t top.c top.rest top.stack top.depth a live)) (
            record {
              c = emptied top.c;
              cs = top.rest;
              stack = refl;
              depth = top.depth;
              valid = top.valid;
              idle = refl;
              live = live;
            },
            rw (live, acked_snoc t.calls (recved t.pcb top.c.ack_len)) (omega (arith, owed)),
          )
    ]
