-- ===== src/Engine/Listen.antt =====
-- How the TLS server of ESP8266 begins and ends (src/AsyncSecureServer.cpp, src/AsyncTCP.cpp):
-- `beginSecure` of SecureServerHooks, with the context that it makes, on the listener.
use async_tcp.Prelude.{
  ℕ, ◌+◌, ◌*◌, ◌<◌, ◌≡◌, ◌⊎◌, inl, inr, refl, arith, Bool, is_some, Option, none, some, List, [],
  ◌∷◌, if◌then◌else◌, if_holds, length, subst, sym, ◌∙◌, ap, ◌==◌,
}
use async_tcp.Server
use async_tcp.Session.Pbes2.{Crypto}
use async_tcp.Session.Pem.{Decoder, bytes_of, map_some}
use async_tcp.Session.Pem.Ends.{IsLawful}
use async_tcp.Session.Pem.Objects.{Gives}
use async_tcp.Session.ServerCtx.{Keys, Ctx, Made, Build, tcp_ssl_new_server_ctx}
use async_tcp.Session.ServerCtx.Ready
use async_tcp.Session.ServerCtx.Ready.{lined, IsReady, Good, tcp_ssl_new_server_ctx-Good}

-- SecureServerHooks: its listener and `_ssl_ctx`, with the blocks of the context and the references
-- on the thunk stack.
pub record ServerHooks (K : Type 0) : Type 0 where
  pub srv : Server.Server
  pub ssl_ctx : Option (Ctx K)
  pub heap : ℕ
  pub thunk_refs : ℕ

-- The arguments of `beginSecure`, and what the allocator and lwIP answer.
pub record Begin : Type 0 where
  pub cert : Option (List ℕ)
  pub key : Option (List ℕ)
  pub password : Option (List ℕ)
  pub build : Build
  pub answers : Server.Answers

pub data Op : Type 0 where
  begins : Begin → Op
  ends : (refused : Bool) → Op

abbrev pub then_all : {R : Type 0} → (R → Option R) → Option R → Option R
then_all f none = none
then_all f (some h) = f h

Gives-weaken :
    {R : Type 0} (A B : R → Type 0) (o : Option R) → ((t : R) → A t → B t) → Gives A o → Gives B o
Gives-weaken A B none f g = g
Gives-weaken A B (some t) f g = f t g

Gives-bind :
    {R : Type 0} (A B : R → Type 0) (f : R → Option R) (o : Option R)
    → Gives A o
    → ((t : R) → A t → Gives B (f t))
    → Gives B (then_all f o)
Gives-bind A B f none g next = g
Gives-bind A B f (some t) g next = next t g

module _ {K P : Type 0} (b : Keys K) (c : Crypto) (d : Decoder P) (k n : ℕ) where
  unfoldable pub ctx_made : Server.Answers → ServerHooks K → Made K → ServerHooks K
  ctx_made a h x = record {
    srv = if is_some x.ctx then Server.begin a h.srv else h.srv;
    ssl_ctx = x.ctx;
    heap = h.heap + x.heap;
    thunk_refs = x.thunk_refs;
  }

  unfoldable pub begin_from : Option (Ctx K) → Begin → ServerHooks K → Option (ServerHooks K)
  begin_from (some x) g h = some h
  begin_from none g h =
      map_some (ctx_made g.answers h)
        (tcp_ssl_new_server_ctx b c d g.build k n g.cert g.key g.password h.thunk_refs)

  -- `beginSecure`, with none where the fuel of the reader runs out.
  unfoldable pub begin_secure : Begin → ServerHooks K → Option (ServerHooks K)
  begin_secure g h = begin_from h.ssl_ctx g h

  unfoldable pub apply : Op → ServerHooks K → Option (ServerHooks K)
  apply (begins g) h = begin_secure g h
  apply (ends refused) h = some (record h { srv = Server.end refused h.srv })

  unfoldable pub run : List Op → ServerHooks K → Option (ServerHooks K)
  run [] h = some h
  run (op ∷ ops) h = then_all (run ops) (apply op h)

  -- One of the calls of `beginSecure` made the context.
  abbrev pub IsOf : Ctx K → List Op → Type 0
  IsOf x [] = ⊥
  IsOf x (ends refused ∷ ops) = IsOf x ops
  IsOf x (begins g ∷ ops) =
      IsReady b c d g.build k n g.password (lined (bytes_of g.key)) x ⊎ IsOf x ops

  -- There is no context, nothing is left of one, and the listener is closed; or there is one that
  -- a call made, with its certificates, its key, and its reference.
  abbrev pub Served : List Op → ServerHooks K → Type 0
  Served ops h =
      ((h.ssl_ctx ≡ none) × (h.heap ≡ 0) × (h.thunk_refs ≡ 0) × (h.srv.pcb ≡ 0))
      ⊎ ((x : Ctx K) × (h.ssl_ctx ≡ some x)
          × IsOf x ops
          × (h.heap ≡ length x.chain_vector + 2)
          × (h.thunk_refs ≡ 1))

  -- The context is as it was, and a listener that was closed still is.
  abbrev pub IsKept : ServerHooks K → ServerHooks K → Type 0
  IsKept h t =
      (t.ssl_ctx ≡ h.ssl_ctx)
      × (t.heap ≡ h.heap)
      × (t.thunk_refs ≡ h.thunk_refs)
      × (h.srv.pcb ≡ 0 → t.srv.pcb ≡ 0)

  end-pcb : (refused : Bool) (s : Server.Server) → (Server.end refused s).pcb ≡ 0
  unfolding Server.end
  end-pcb refused s =
      if_holds (λ (t : Server.Server). t.pcb ≡ 0) (s.pcb == 0) _ _ (λ e. ground (arith, e))
        (λ _. refl)

  -- On a TLS server of ESP8266 that has a context, no calls of `beginSecure` and `end`, with any
  -- texts, change it, its blocks or its reference; and if the listener is closed, none of them
  -- opens it again.
  pub run-IsKept :
      (ops : List Op) (h : ServerHooks K) (x : Ctx K)
      → h.ssl_ctx ≡ some x
      → Gives (IsKept h) (run ops h)
  unfolding run apply begin_secure begin_from
  run-IsKept [] h x e = (refl, refl, refl, λ p. p)
  run-IsKept (begins g ∷ ops) h x e =
      subst (λ o. Gives (IsKept h) (then_all (run ops) (begin_from o g h))) (sym e)
        (run-IsKept ops h x e)
  run-IsKept (ends refused ∷ ops) h x e =
      let closed = record h { srv = Server.end refused h.srv } in
      Gives-weaken (IsKept closed) (IsKept h) (run ops closed)
        (λ t (ctx, heap, refs, pcb). (ctx, heap, refs, λ _. pcb (end-pcb refused h.srv)))
        (run-IsKept ops closed x e)

  module _ (pending : P → ℕ) (law : IsLawful d pending) where
    -- Fuel beyond a text's bytes and the edges that the decoder has to tell.
    abbrev pub IsFed : Option (List ℕ) → Type 0
    IsFed text =
        (pending d.init + length (bytes_of text) + 1 < k)
        × (2 * length (bytes_of text) + 2 + pending d.init < n)

    abbrev pub AreFed : List Op → Type 0
    AreFed [] = Unit {0}
    AreFed (begins g ∷ ops) = (IsFed g.cert × IsFed g.key) × AreFed ops
    AreFed (ends refused ∷ ops) = AreFed ops

    -- What `beginSecure` does without a context.
    Outcome : Begin → ServerHooks K → ServerHooks K → Type 0
    Outcome g h t =
        ((t.ssl_ctx ≡ none) × (t.heap ≡ h.heap) × (t.thunk_refs ≡ h.thunk_refs) × (t.srv ≡ h.srv))
        ⊎ ((x : Ctx K) × (t.ssl_ctx ≡ some x)
            × IsReady b c d g.build k n g.password (lined (bytes_of g.key)) x
            × (t.heap ≡ h.heap + (length x.chain_vector + 2))
            × (t.thunk_refs ≡ h.thunk_refs + 1))

    ctx_made-Outcome :
        (g : Begin) (h : ServerHooks K) (ctx : Option (Ctx K)) (heap thunk_refs : ℕ)
        → Ready.Outcome b c d g.build k n g.password
            (lined (bytes_of g.key))
            h.thunk_refs
            ctx
            heap
            thunk_refs
        → Outcome g h
            (ctx_made g.answers h (record { ctx = ctx; heap = heap; thunk_refs = thunk_refs }))
    unfolding ctx_made Outcome
    ctx_made-Outcome g h none heap thunk_refs (e, r) = inl (refl, omega (arith, e), r, refl)
    ctx_made-Outcome g h (some x) heap thunk_refs (ready, e, r) =
        inr (x, refl, ready, omega (arith, e), r)

    begin_from-Outcome :
        (g : Begin) (h : ServerHooks K) (o : Option (Made K))
        → Gives (Good b c d g.build k n g.password (lined (bytes_of g.key)) h.thunk_refs) o
        → Gives (Outcome g h) (map_some (ctx_made g.answers h) o)
    begin_from-Outcome g h none e = e
    begin_from-Outcome g h (some x) e = ctx_made-Outcome g h x.ctx x.heap x.thunk_refs e

    Served-later :
        (g : Begin) (ops : List Op) (h : ServerHooks K) → Served ops h → Served (begins g ∷ ops) h
    Served-later g ops h (inl off) = inl off
    Served-later g ops h (inr (x, e, made, heap, refs)) = inr (x, e, inr made, heap, refs)

    -- On a closed listener of ESP8266 without a context, and a PEM decoder and fuel as for
    -- `tcp_ssl_new_server_ctx`, any calls of `beginSecure` and `end`, whatever texts they have and
    -- whatever the allocator and lwIP answer, end, and leave no context, no block, no reference on
    -- the thunk stack and a closed listener; or a context with certificates and a key, which one
    -- of the calls made of its texts, with the blocks and the one reference that it holds.
    pub run-Served :
        (ops : List Op) (h : ServerHooks K)
        → h.ssl_ctx ≡ none
        → h.heap ≡ 0
        → h.thunk_refs ≡ 0
        → h.srv.pcb ≡ 0
        → AreFed ops
        → Gives (Served ops) (run ops h)
    unfolding run apply begin_secure begin_from Outcome
    run-Served [] h e1 e2 e3 e4 f = inl (e1, e2, e3, e4)
    run-Served (ends refused ∷ ops) h e1 e2 e3 e4 f =
        run-Served ops (record h { srv = Server.end refused h.srv }) e1 e2 e3
          (end-pcb refused h.srv) f
    run-Served (begins g ∷ ops) h e1 e2 e3 e4 (((c1, c2), (k1, k2)), f) =
        let made =
          tcp_ssl_new_server_ctx-Good b c d g.build k n pending law g.cert g.key g.password
            h.thunk_refs c1 c2 k1 k2 in
        let begun = begin_from-Outcome g h _ made in
        subst (λ o. Gives (Served (begins g ∷ ops)) (then_all (run ops) (begin_from o g h)))
          (sym e1)
          (Gives-bind (Outcome g h) (Served (begins g ∷ ops)) (run ops) _ begun (λ t o. elim o [
            | inl (ctx, heap, refs, srv) ↦
                Gives-weaken (Served ops) (Served (begins g ∷ ops)) (run ops t) (Served-later g ops)
                  (run-Served ops t ctx (heap ∙ e2) (refs ∙ e3)
                    (ap (λ (v : Server.Server). v.pcb) srv ∙ e4) f)
            | inr (x, ctx, ready, heap, refs) ↦
                Gives-weaken (IsKept t) (Served (begins g ∷ ops)) (run ops t)
                  (λ u (same, left, held, _). inr (
                    x,
                    same ∙ ctx,
                    inl ready,
                    omega (arith, left, heap, e2),
                    omega (arith, held, refs, e3),
                  ))
                  (run-IsKept ops t x ctx)
          ]))
