-- ===== src/Engine/Start.antt =====
-- How a session of ESP8266 starts (src/AsyncSecureSession.cpp): `startSSLClient`,
-- `startSSLServer`, `startClient` and `setClientCredentials` of AsyncSecureSession, on the list of
-- sessions with the setters of their callbacks, and the callbacks that a session hands on.
use async_tcp.Prelude.{
  ap, ◌∙◌, ◌⊎◌, inl, inr, Option-cases, ℕ, ◌≡◌, ◌≢◌, refl, Bool, true, false, Option, none, some,
  List, ◌==◌, ==_refl, ==_ne, if◌then◌else◌,
}
use async_tcp.Engine.Registry.{
  Entry, Registry, find_ssl_pcb, tcp_ssl_register_pcb, Answers, tcp_ssl_new_client,
  tcp_ssl_new_server,
}

-- The callbacks of a tcp_ssl_pcb, and their argument, an address.
pub record Callbacks : Type 0 where
  pub arg : ℕ
  pub on_data : Bool
  pub on_handshake : Bool
  pub on_error : Bool

-- The list of sessions, and the callbacks of the session at an address.
pub record Sessions : Type 0 where
  pub registry : Registry
  pub callbacks : ℕ → Callbacks

-- An AsyncSecureSession at the address `self`; `ssl` is the address of its session, and 0 is null.
pub record Owner : Type 0 where
  pub self : ℕ
  pub pcb : ℕ
  pub ssl : ℕ
  pub handshake_done : Bool
  pub deferred_host : Option (List ℕ)
  pub deferred_ssl_ctx : Bool

unfoldable pub change : (Callbacks → Callbacks) → Option Entry → Sessions → Sessions
change f none s = s
change f (some e) s = record s {
  callbacks = λ a. if a == e.address then f (s.callbacks a) else s.callbacks a;
}

unfoldable pub tcp_ssl_arg : ℕ → ℕ → Sessions → Sessions
tcp_ssl_arg pcb arg s =
    change (λ x. record x { arg = arg }) (find_ssl_pcb s.registry.tcp_ssl_pcbs pcb) s

unfoldable pub tcp_ssl_data : ℕ → Sessions → Sessions
tcp_ssl_data pcb s =
    change (λ x. record x { on_data = true }) (find_ssl_pcb s.registry.tcp_ssl_pcbs pcb) s

unfoldable pub tcp_ssl_handshake : ℕ → Sessions → Sessions
tcp_ssl_handshake pcb s =
    change (λ x. record x { on_handshake = true }) (find_ssl_pcb s.registry.tcp_ssl_pcbs pcb) s

unfoldable pub tcp_ssl_err : ℕ → Sessions → Sessions
tcp_ssl_err pcb s =
    change (λ x. record x { on_error = true }) (find_ssl_pcb s.registry.tcp_ssl_pcbs pcb) s

unfoldable pub address_of : Option Entry → ℕ
address_of none = 0
address_of (some e) = e.address

-- What the run of an engine can change while a session starts: its owner, the sessions, and the rest,
-- as the client.
pub record World (W : Type 0) : Type 0 where
  pub rest : W
  pub owner : Owner
  pub sessions : Sessions

-- `setClientCredentials`, with what strdup answers.
unfoldable pub set_client_credentials :
    (List ℕ → Option (List ℕ)) → Option (List ℕ) → Bool → Owner → Owner
set_client_credentials strdup none ssl_ctx o = record o {
  deferred_host = none;
  deferred_ssl_ctx = ssl_ctx;
}
set_client_credentials strdup (some host) ssl_ctx o = record o {
  deferred_host = strdup host;
  deferred_ssl_ctx = ssl_ctx;
}

module _ {W : Type 0} where
  -- `_pcb = pcb` before the start, and the list that it leaves.
  unfoldable pub with_registry : ℕ → World W → Registry → World W
  with_registry pcb w r = record w {
    owner = record w.owner { pcb = pcb };
    sessions = record w.sessions { registry = r };
  }

  -- The session that is found for the pcb becomes the owner's, and calls it back.
  unfoldable pub adopt : ℕ → World W → World W
  adopt pcb w = record w {
    owner = record w.owner {
      ssl = address_of (find_ssl_pcb w.sessions.registry.tcp_ssl_pcbs pcb);
      handshake_done = false;
    };
    sessions =
        tcp_ssl_err pcb
          (tcp_ssl_handshake pcb (tcp_ssl_data pcb (tcp_ssl_arg pcb w.owner.self w.sessions)));
  }

  -- What both starts do on the result of `tcp_ssl_new_client` or `tcp_ssl_new_server`.
  unfoldable pub started : ℕ → Bool × World W → Bool × World W
  started pcb (true, w) = (true, adopt pcb w)
  started pcb (false, w) = (false, record w { owner = record w.owner { pcb = 0 } })

  -- `startSSLClient`; `address` is where the session is made, and `run_engine` what happens while
  -- its engine runs.
  unfoldable pub start_ssl_client :
      (World W → World W) → Answers → ℕ → Option ℕ → World W → Bool × World W
  start_ssl_client run_engine a address none w = (false, w)
  start_ssl_client run_engine a address (some pcb) w =
      started pcb (
        tcp_ssl_new_client (with_registry pcb w) run_engine a w.sessions.registry (some pcb)
          address)

  -- `startSSLServer`; `ctx` says whether there is a context.
  unfoldable pub start_ssl_server : Answers → ℕ → Option ℕ → Bool → World W → Bool × World W
  start_ssl_server a address none ctx w = (false, w)
  start_ssl_server a address (some pcb) false w = (false, w)
  start_ssl_server a address (some pcb) true w =
      let (ok, r) = tcp_ssl_new_server a w.sessions.registry (some pcb) true address in
      started pcb (ok, with_registry pcb w r)

-- The four setters, on the session that is found for the pcb.
abbrev bound : ℕ → Entry → Sessions → Sessions
bound arg e s = record s {
  callbacks = λ a.
      if a == e.address
      then (record { arg = arg; on_data = true; on_handshake = true; on_error = true })
      else s.callbacks a;
}

-- Set one after the other or at once.
four :
    (b : Bool) (arg : ℕ) (x : Callbacks)
    → (let x1 : Callbacks = if b then record x { arg = arg } else x in
        let x2 : Callbacks = if b then record x1 { on_data = true } else x1 in
        let x3 : Callbacks = if b then record x2 { on_handshake = true } else x2 in
        let x4 : Callbacks = if b then record x3 { on_error = true } else x3 in x4)
      ≡ (if b
          then record { arg = arg; on_data = true; on_handshake = true; on_error = true }
          else x)
four true arg x = refl
four false arg x = refl

setters-bound :
    (pcb arg : ℕ) (e : Entry) (s : Sessions)
    → find_ssl_pcb s.registry.tcp_ssl_pcbs pcb ≡ some e
    → tcp_ssl_err pcb (tcp_ssl_handshake pcb (tcp_ssl_data pcb (tcp_ssl_arg pcb arg s)))
      ≡ bound arg e s
unfolding tcp_ssl_err tcp_ssl_handshake tcp_ssl_data tcp_ssl_arg change
setters-bound pcb arg e s found =
    rw (found, found, found, found)
      (λ i. record s { callbacks = λ a. four (a == e.address) arg (s.callbacks a) i })

setters-none :
    (pcb arg : ℕ) (s : Sessions)
    → find_ssl_pcb s.registry.tcp_ssl_pcbs pcb ≡ none
    → tcp_ssl_err pcb (tcp_ssl_handshake pcb (tcp_ssl_data pcb (tcp_ssl_arg pcb arg s))) ≡ s
unfolding tcp_ssl_err tcp_ssl_handshake tcp_ssl_data tcp_ssl_arg change
setters-none pcb arg s gone = rw (gone, gone, gone, gone) refl

module _ {W : Type 0} where
  -- From `v`: the session that is listed for the pcb is the owner's and calls it back, and no other
  -- has changed; or none is listed any more, and the owner has none.
  abbrev pub Adopts : ℕ → World W → World W → Type 0
  Adopts pcb v t =
      (t.rest ≡ v.rest)
      × (t.sessions.registry ≡ v.sessions.registry)
      × (((e : Entry) × (find_ssl_pcb v.sessions.registry.tcp_ssl_pcbs pcb ≡ some e)
            × (t.owner ≡ record v.owner { ssl = e.address; handshake_done = false })
            × (t.sessions.callbacks e.address ≡ record {
              arg = v.owner.self;
              on_data = true;
              on_handshake = true;
              on_error = true;
            })
            × ((a : ℕ) → a ≢ e.address → t.sessions.callbacks a ≡ v.sessions.callbacks a))
          ⊎ ((find_ssl_pcb v.sessions.registry.tcp_ssl_pcbs pcb ≡ none)
              × (t.owner ≡ record v.owner { ssl = 0; handshake_done = false })
              × (t.sessions ≡ v.sessions)))

  adopt-Adopts : (pcb : ℕ) (v : World W) → Adopts pcb v (adopt pcb v)
  unfolding adopt address_of
  adopt-Adopts pcb v =
      let all =
        λ (x : Option Entry). record v.owner { ssl = address_of x; handshake_done = false } in
      elim (Option-cases (find_ssl_pcb v.sessions.registry.tcp_ssl_pcbs pcb)) [
        | inl gone ↦
            let same = setters-none pcb v.owner.self v.sessions gone in
            (refl, ap (λ (x : Sessions). x.registry) same, inr (gone, ap all gone, same))
        | inr (e, found) ↦
            let set = setters-bound pcb v.owner.self e v.sessions found in
            let self_set : (bound v.owner.self e v.sessions).callbacks e.address ≡ record {
              arg = v.owner.self;
              on_data = true;
              on_handshake = true;
              on_error = true;
            } =
              rw (==_refl e.address) refl in
            let other_kept : (a : ℕ)
                → a ≢ e.address
                → (bound v.owner.self e v.sessions).callbacks a ≡ v.sessions.callbacks a =
              λ a ne. rw (==_ne a e.address ne) refl in
            (
              refl,
              ap (λ (x : Sessions). x.registry) set,
              inl (
                e,
                found,
                ap all found,
                ap (λ (x : Sessions). x.callbacks e.address) set ∙ self_set,
                λ a ne. ap (λ (x : Sessions). x.callbacks a) set ∙ other_kept a ne,
              ),
            )
      ]

  -- What a start does: it finds no memory, and nothing has changed but that the owner has no pcb; or
  -- the session was listed, what happens then left `v`, and what is still listed is adopted.
  abbrev pub Starts : (World W → World W) → ℕ → Entry → World W → Bool × World W → Type 0
  Starts happens pcb e w (true, t) =
      Adopts pcb (happens (with_registry pcb w (tcp_ssl_register_pcb w.sessions.registry e))) t
  Starts happens pcb e w (false, t) = t ≡ record w { owner = record w.owner { pcb = 0 } }

  started-Starts :
      (happens : World W → World W) (pcb : ℕ) (e : Entry) (w : World W) (b : Bool)
      → Starts happens pcb e w (
          started pcb (
            if b
            then (true, happens (with_registry pcb w (tcp_ssl_register_pcb w.sessions.registry e)))
            else (false, with_registry pcb w w.sessions.registry)))
  unfolding started with_registry
  started-Starts happens pcb e w true = adopt-Adopts pcb _
  started-Starts happens pcb e w false = refl

  pub start_ssl_client-Starts :
      (run_engine : World W → World W) (a : Answers) (address pcb : ℕ) (w : World W)
      → Starts run_engine pcb
          (record { address = address; tcp = pcb; is_server = false })
          w
          (start_ssl_client run_engine a address (some pcb) w)
  unfolding start_ssl_client tcp_ssl_new_client
  start_ssl_client-Starts run_engine a address pcb w =
      started-Starts run_engine pcb (record { address = address; tcp = pcb; is_server = false }) w _

  server-Starts :
      (pcb : ℕ) (e : Entry) (w : World W) (b : Bool)
      → let made : Bool × Registry =
          if b
          then (true, tcp_ssl_register_pcb w.sessions.registry e)
          else (false, w.sessions.registry) in
        Starts (λ v. v) pcb e w (started pcb (made.0, with_registry pcb w made.1))
  unfolding started with_registry
  server-Starts pcb e w true = adopt-Adopts pcb _
  server-Starts pcb e w false = refl

  pub start_ssl_server-Starts :
      (a : Answers) (address pcb : ℕ) (w : World W)
      → Starts
          (λ v. v)
          pcb
          (record { address = address; tcp = pcb; is_server = true })
          w
          (start_ssl_server a address (some pcb) true w)
  unfolding start_ssl_server tcp_ssl_new_server
  start_ssl_server-Starts a address pcb w =
      server-Starts pcb (record { address = address; tcp = pcb; is_server = true }) w _
