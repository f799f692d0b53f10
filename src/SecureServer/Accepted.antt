-- ===== src/SecureServer/Accepted.antt =====
-- `_acceptedTls` of src/AsyncSecureServer.cpp (ESP32): a client whose accept event is handled gets
-- its TLS session, and what was buffered while it was parked.
mod Tests
use async_tcp.Prelude.{
  ℕ, ◌<◌, ◌≤◌, ◌≡◌, ◌⊎◌, inl, inr, refl, arith, Bool, true, false, not, ◌&&◌, Option, none, some,
  List, [], ◌∷◌, ◌++◌, ltb, if◌then◌else◌, if_holds,
}
use async_tcp.SecureClient.Start.{Setup, Step, go, stop}
use async_tcp.SecureClient.Start
use async_tcp.SecureClient.Start.Server.{
  start_ssl_server, IsServing, Serves, start_ssl_server-Serves,
}
use async_tcp.SecureServer.{err_ok, err_abrt}
use async_tcp.SecureServer.Config.{Config, ready}

-- SSL_MBED_SERVE_FLOOR
abbrev pub serve_floor : ℕ
serve_floor = 90000

-- What happens to the session, the client and the application, in order.
pub data Call : Type 0 where
  deleted_session set_hooks aborted deleted_client told_client : Call
  fed : List (List ℕ) → Call

-- The client: whether there is one, whether it has its pcb, what waits for its session, and its
-- hooks' session.
pub record Accepting : Type 0 where
  pub client : Bool
  pub pcb : Bool
  pub staged : List (List ℕ)
  pub hooks : Option Setup
  pub calls : List Call

-- The heap, and which of the two allocations succeed.
pub record Made : Type 0 where
  pub free_heap : ℕ
  pub session : Bool
  pub hooks : Bool

abbrev pub log : List Call → Accepting → Accepting
log cs x = record x { calls = x.calls ++ cs }

unfoldable pub refuse : List Call → Accepting → Option ℕ × Accepting
refuse before x = (some err_abrt, log (before ++ aborted ∷ deleted_client ∷ []) x)

unfoldable pub feed_staged : List (List ℕ) → List Call
feed_staged [] = []
feed_staged (p ∷ ps) = fed (p ∷ ps) ∷ []

unfoldable pub serve : Setup → Accepting → Option ℕ × Accepting
serve t x = (
  some err_ok,
  record x {
    hooks = some t;
    staged = [];
    calls = x.calls ++ set_hooks ∷ (feed_staged x.staged ++ told_client ∷ []);
  },
)

unfoldable pub with_session : Made → Step → Accepting → Option ℕ × Accepting
with_session m (stop r t) x = refuse (deleted_session ∷ []) x
with_session m (go t) x = if m.hooks then serve t x else refuse (deleted_session ∷ []) x

-- `_acceptedTls`, with none for -1. `fresh` is a session as its constructor leaves it.
unfoldable pub accepted_tls : Start.Calls → Made → Setup → Config → Accepting → Option ℕ × Accepting
accepted_tls c m fresh config x =
    if not (ready config)
    then (none, x)
    else (if not (x.client && x.pcb)
        then (some err_ok, log (told_client ∷ []) x)
        else (if ltb m.free_heap serve_floor
            then refuse [] x
            else (if m.session
                then with_session m (start_ssl_server c config.secure_ctx.parsed true fresh) x
                else refuse [] x)))

-- How it ends, with all the calls.
pub data Outcome (c : Start.Calls) (m : Made) (fresh : Setup) (config : Config) (x : Accepting)
    : Option ℕ × Accepting → Type 0 where
  plain : ready config ≡ false → Outcome c m fresh config x (none, x)
  gone :
      ready config ≡ true
      → (x.client && x.pcb) ≡ false
      → Outcome c m fresh config x (some 0, record x { calls = x.calls ++ told_client ∷ [] })
  refused_early :
      ready config ≡ true
      → (x.client && x.pcb) ≡ true
      → (m.free_heap < 90000) ⊎ (m.session ≡ false)
      → Outcome c m fresh config x
          (some 13, record x { calls = x.calls ++ aborted ∷ deleted_client ∷ [] })
  refused_late :
      ready config ≡ true
      → (x.client && x.pcb) ≡ true
      → 90000 ≤ m.free_heap
      → m.session ≡ true
      → ((r : Start.Ret) × (t : Setup) × (start_ssl_server c config.secure_ctx.parsed true fresh
            ≡ stop r t))
        ⊎ (m.hooks ≡ false)
      → Outcome c m fresh config x
          (some 13, record x { calls = x.calls ++ deleted_session ∷ aborted ∷ deleted_client ∷ [] })
  served :
      (t : Setup) (waiting : List Call)
      → ready config ≡ true
      → (x.client && x.pcb) ≡ true
      → 90000 ≤ m.free_heap
      → (m.session ≡ true) × (m.hooks ≡ true)
      → config.secure_ctx.parsed ≡ true
      → IsServing t
      → ((x.staged ≡ []) × (waiting ≡ []))
        ⊎ ((b : List ℕ) × (bs : List (List ℕ)) × (x.staged ≡ b ∷ bs)
            × (waiting ≡ fed x.staged ∷ []))
      → Outcome c m fresh config x (
        some 0,
        record x {
          hooks = some t;
          staged = [];
          calls = x.calls ++ set_hooks ∷ (waiting ++ told_client ∷ []);
        },
      )

module _ (c : Start.Calls) (m : Made) (fresh : Setup) (config : Config) (x : Accepting) where
  feed_staged_lem :
      (staged : List (List ℕ))
      → ((staged ≡ []) × (feed_staged staged ≡ []))
        ⊎ ((b : List ℕ) × (bs : List (List ℕ)) × (staged ≡ b ∷ bs)
            × (feed_staged staged ≡ fed staged ∷ []))
  unfolding feed_staged
  feed_staged_lem [] = inl (refl, refl)
  feed_staged_lem (b ∷ bs) = inr (b, bs, refl, refl)

  with_session-Outcome :
      (step : Step)
      → start_ssl_server c config.secure_ctx.parsed true fresh ≡ step
      → ready config ≡ true
      → (x.client && x.pcb) ≡ true
      → 90000 ≤ m.free_heap
      → m.session ≡ true
      → Serves config.secure_ctx.parsed step
      → Outcome c m fresh config x (with_session m step x)
  unfolding with_session refuse serve
  with_session-Outcome (stop r t) same e f g h s = refused_late e f g h (inl (r, t, same))
  with_session-Outcome (go t) same e f g h s =
      if_holds (Outcome c m fresh config x) m.hooks _ _
        (λ k. served t (feed_staged x.staged) e f g (h, k) s.0 s.1 (feed_staged_lem x.staged))
        (λ k. refused_late e f g h (inr k))

  -- `_acceptedTls` ends in one of these ways: without TLS and its certificate and key set it
  -- answers -1 and changes nothing; a client that is null or without a pcb is passed on to the
  -- application; with less free heap than the floor, or no memory for a session, the client is
  -- aborted and deleted; where the session does not start, or its hooks have no memory, the
  -- session is deleted before that; and else, for a certificate and a key that were read, the
  -- client has a session set up as a server's on TLS 1.2 with the two pinned suites, the hooks are
  -- set, what waits for it is fed at once, in order, where there is any, and the application is
  -- told last.
  pub accepted_tls-Outcome : Outcome c m fresh config x (accepted_tls c m fresh config x)
  unfolding accepted_tls refuse
  accepted_tls-Outcome =
      let P = Outcome c m fresh config x in
      if_holds P (not (ready config)) _ _ (λ e. plain (ground (arith, e)))
        (λ e.
          let on : ready config ≡ true = ground (arith, e) in
          if_holds P (not (x.client && x.pcb)) _ _ (λ f. gone on (ground (arith, f)))
            (λ f.
              let there : (x.client && x.pcb) ≡ true = ground (arith, f) in
              if_holds P (ltb m.free_heap serve_floor) _ _
                (λ g. refused_early on there (inl (ground (arith, g))))
                (λ g.
                  if_holds P m.session _ _
                    (λ h.
                      with_session-Outcome (start_ssl_server c config.secure_ctx.parsed true fresh)
                        refl on there (ground (arith, g)) h
                        (start_ssl_server-Serves c config.secure_ctx.parsed true fresh))
                    (λ h. refused_early on there (inr h)))))
