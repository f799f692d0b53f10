-- ===== src/Engine/Connect.antt =====
-- How a TLS client of ESP8266 connects: `beginSecure` of AsyncSecureClient and `onConnected` of its
-- hooks (src/AsyncSecureClient.cpp), with the constructor and `startClient` of AsyncSecureSession
-- (src/AsyncSecureSession.cpp), on the client and the list of sessions.
use async_tcp.Prelude.{
  ℕ, ◌≡◌, ◌⊎◌, inl, inr, refl, ap, sym, subst, arith, Bool, true, false, not, ◌&&◌, Option, none,
  some, List, ◌==◌, if◌then◌else◌, if_holds,
}
use async_tcp.Client.State
use async_tcp.Client.Api.{connect_host, close}
use async_tcp.Engine.Registry.{Answers, tcp_ssl_register_pcb}
use async_tcp.Engine.Start.{
  Owner, Sessions, World, with_registry, start_ssl_client, set_client_credentials, Adopts, Starts,
  start_ssl_client-Starts,
}

-- The client, the session of its hooks, and the sessions of all.
pub record Sys : Type 0 where
  pub client : State.Sys
  pub hooks : Option Owner
  pub sessions : Sessions

-- What the allocators answer: whether there is a session and its hooks, the lookup of the name, the
-- copy of the host, and the address of the session.
pub record Alloc : Type 0 where
  pub session : Bool
  pub hooks : Bool
  pub lookup : Bool
  pub strdup : List ℕ → Option (List ℕ)
  pub self : ℕ

-- As the constructor leaves it.
abbrev pub new_session : ℕ → Owner
new_session self = record {
  self = self;
  pcb = 0;
  ssl = 0;
  handshake_done = false;
  deferred_host = none;
  deferred_ssl_ctx = false;
}

-- The session that `beginSecure` makes.
abbrev pub for_host : Alloc → List ℕ → Owner
for_host m host = set_client_credentials m.strdup (some host) false (new_session m.self)

-- `startClient`; what happens while the engine runs may change the client, its session and all the
-- others, as the code yields there.
unfoldable pub start_client :
    (World State.Sys → World State.Sys) → Answers → ℕ → World State.Sys → Bool × World State.Sys
start_client run_engine a address w =
    let pcb = w.rest.pcb in
    if pcb == 0 then (false, w) else start_ssl_client run_engine a address (some pcb) w

module _ (e : State.Env) where
  unfoldable pub dial : ℕ → Bool → Sys → Bool × Sys
  dial port lookup s =
      let (dialled, client) = connect_host e lookup port s.client in
      (dialled, record s { client = client })

  -- `beginSecure`
  unfoldable pub begin_secure : Alloc → List ℕ → ℕ → Sys → Bool × Sys
  begin_secure m host port s =
      if not (s.client.pcb == 0)
      then (false, s)
      else (if m.session && m.hooks
          then dial port m.lookup (record s { hooks = some (for_host m host) })
          else (false, s))

  unfoldable pub after_start : Bool × World State.Sys → Sys
  after_start (true, w) = record { client = w.rest; hooks = some w.owner; sessions = w.sessions }
  after_start (false, w) = record {
    client = close e w.rest;
    hooks = some w.owner;
    sessions = w.sessions;
  }

  unfoldable pub start :
      (World State.Sys → World State.Sys) → Answers → ℕ → Option Owner → Sys → Sys
  start run_engine a address none s = s
  start run_engine a address (some o) s = after_start (
      start_client run_engine a address
        (record { rest = s.client; owner = o; sessions = s.sessions }))

  -- `onConnected`
  unfoldable pub on_connected : (World State.Sys → World State.Sys) → Answers → ℕ → Sys → Sys
  on_connected run_engine a address s = start run_engine a address s.hooks s

  -- The session was listed for the client's pcb, and the one that is listed after the engine's run
  -- is adopted; or the client is closed, and the list of sessions is as it was.
  abbrev pub Connects : (World State.Sys → World State.Sys) → ℕ → Owner → Sys → Sys → Type 0
  Connects run_engine address o s t =
      ((w : World State.Sys) × Adopts s.client.pcb
          (run_engine (record {
            rest = s.client;
            owner = record o { pcb = s.client.pcb };
            sessions = record s.sessions {
              registry =
                  tcp_ssl_register_pcb s.sessions.registry
                    (record { address = address; tcp = s.client.pcb; is_server = false });
            };
          }))
          w
        × (t ≡ record { client = w.rest; hooks = some w.owner; sessions = w.sessions }))
      ⊎ ((t.client ≡ close e s.client) × (t.sessions ≡ s.sessions))

  after_start-Connects :
      (run_engine : World State.Sys → World State.Sys) (address : ℕ) (o : Owner) (s : Sys)
      (r : Bool × World State.Sys)
      → Starts run_engine s.client.pcb
          (record { address = address; tcp = s.client.pcb; is_server = false })
          (record { rest = s.client; owner = o; sessions = s.sessions })
          r
      → Connects run_engine address o s (after_start r)
  unfolding after_start with_registry
  after_start-Connects run_engine address o s (true, w) h = inl (w, h, refl)
  after_start-Connects run_engine address o s (false, w) h =
      inr
        (ap (λ (x : World State.Sys). close e x.rest) h, ap (λ (x : World State.Sys). x.sessions) h)

  on_connected-Starts :
      (run_engine : World State.Sys → World State.Sys) (a : Answers) (address : ℕ) (s : Sys)
      (o : Owner)
      → s.hooks ≡ some o
      → Connects run_engine address o s (on_connected run_engine a address s)
  unfolding on_connected start start_client after_start
  on_connected-Starts run_engine a address s o e' =
      let pcb = s.client.pcb in
      let w : World State.Sys = record { rest = s.client; owner = o; sessions = s.sessions } in
      subst (λ h. Connects run_engine address o s (start run_engine a address h s)) (sym e')
        (if_holds (λ (r : Bool × World State.Sys). Connects run_engine address o s (after_start r))
          (pcb == 0) _ _ (λ _. inr (refl, refl))
          (λ _.
            after_start-Connects run_engine address o s _
              (start_ssl_client-Starts run_engine a address pcb w)))

  -- On ESP8266, when `beginSecure` is called on a client without a pcb, with memory for its
  -- session and hooks, and the client is connected later, in any state, then either a TLS session
  -- was listed for its pcb and its engine run, whatever that did to the client, its session and
  -- the others, and after it the session that is listed for the pcb is the one of the client's
  -- session and calls it back, while the callbacks of no other change, or none is listed any more
  -- and the client's session has none; or the client is closed, and the list of TLS sessions is as
  -- it was.
  pub begin_secure-on_connected :
      (run_engine : World State.Sys → World State.Sys) (a : Answers) (m : Alloc) (address port : ℕ)
      (host : List ℕ) (s : Sys) (u : State.Sys)
      → s.client.pcb ≡ 0
      → m.session ≡ true
      → m.hooks ≡ true
      → let t = record (begin_secure m host port s).1 { client = u } in
        Connects run_engine address (for_host m host) t (on_connected run_engine a address t)
  unfolding begin_secure dial
  begin_secure-on_connected run_engine a m address port host s u closed e1 e2 =
      let P : Bool × Sys → Type 0 = λ r.
        let t = record r.1 { client = u } in
        Connects run_engine address (for_host m host) t (on_connected run_engine a address t) in
      if_holds P (not (s.client.pcb == 0)) _ _ (λ g. absurd (ground (arith, g, closed)))
        (λ _.
          if_holds P (m.session && m.hooks) _ _
            (λ _. on_connected-Starts run_engine a address _ (for_host m host) refl)
            (λ g. absurd (ground (arith, g, e1, e2))))
