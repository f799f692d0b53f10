-- ===== src/SecureClient/Begin.antt =====
-- ESP32: `beginSecure` of AsyncSecureClient and `onConnected` of its hooks
-- (src/AsyncSecureClient.cpp), with `setHooks` and the end of a client (src/AsyncTCP.h and
-- src/AsyncTCP.cpp), over the client's own `connect` and `close` and the start of a session.
pub mod Tests
use async_tcp.Prelude.{
  ℕ, zero, suc, ◌+◌, ◌-◌, ◌≡◌, ◌≢◌, ◌⊎◌, inl, inr, refl, arith, Bool, true, false, not, ◌&&◌,
  Option, none, some, List, [], ◌∷◌, ◌==◌, if◌then◌else◌, length, subst, sym, if_holds,
}
use async_tcp.Client.State
use async_tcp.Client.State.{told_error, log}
use async_tcp.Client.Api.{connect_host, close}
use async_tcp.SecureClient.Start.{
  Setup, Calls, Credentials, Step, go, stop, or_empty, chosen, set_client_credentials, start_client,
  start_ssl_client,
}
use async_tcp.SecureClient.Start.Policy.{has, Ensures, IsFree, IsFresh}
use async_tcp.SecureClient.Start.Outcome.{IsStarted, start_ssl_client-Ensures}

-- The session of the hooks: what `setClientCredentials` kept, and its set-up.
pub record Session : Type 0 where
  pub deferred : Option (List ℕ) × Credentials
  pub setup : Setup

-- The client, its hooks, and `_active_count`, the number of sessions that were not deleted.
pub record Sys : Type 0 where
  pub client : State.Sys
  pub hooks : Option Session
  pub active_count : ℕ

-- Which allocations succeed: of the session, of its hooks and of the lookup of the name.
pub record Made : Type 0 where
  pub session : Bool
  pub hooks : Bool
  pub lookup : Bool

-- `setHooks`, with the new session counted.
unfoldable pub set_hooks : Session → Sys → Sys
set_hooks x s = record s { hooks = some x; active_count = suc s.active_count }

unfoldable pub delete_session : Option Session → Sys → Sys
delete_session none s = s
delete_session (some x) s = record s { hooks = none; active_count = s.active_count - 1 }

-- The client's destructor deletes its hooks, and they their session.
unfoldable pub delete_hooks : Sys → Sys
delete_hooks s = delete_session s.hooks s

module _ (c : Calls) (e : State.Env) where
  unfoldable pub dial : ℕ → Bool → Sys → Bool × Sys
  dial port lookup s =
      let (dialled, client) = connect_host e lookup port s.client in
      (dialled, record s { client = client })

  -- `beginSecure`; `fresh` is a session as its constructor leaves it.
  unfoldable pub begin_secure : Made → Setup → List ℕ → ℕ → Credentials → Sys → Bool × Sys
  begin_secure m fresh host port k s =
      let x : Session = record {
        deferred = set_client_credentials c (some host) k;
        setup = fresh;
      } in
      if not (s.client.pcb == 0)
      then (false, s)
      else (if m.session && m.hooks then dial port m.lookup (set_hooks x s) else (false, s))

  -- `notifyError(c, -60)` and `close`.
  unfoldable pub fail : State.Sys → State.Sys
  fail s =
      let told : State.Sys = elim e.error_cb [ none ↦ s | some f ↦ f 60 (log (told_error 60) s) ] in
      if s.facade == 0 then close e s else close e told

  unfoldable pub after_start : Session → Step → Sys → Sys
  after_start x (go t) s = record s { hooks = some (record x { setup = t }) }
  after_start x (stop r t) s = record s {
    client = fail s.client;
    hooks = some (record x { setup = t });
  }

  unfoldable pub start : Option Session → Sys → Sys
  start none s = s
  start (some x) s = after_start x (start_client c (not (s.client.pcb == 0)) x.deferred x.setup) s

  -- `onConnected`
  unfoldable pub on_connected : Sys → Sys
  on_connected s = start s.hooks s

  -- The client after the application was told of error -60, if it is still there and has a
  -- callback for it, and before it is closed.
  abbrev pub Told : State.Sys → State.Sys → Type 0
  Told s u =
      (((s.facade ≡ 0) ⊎ (e.error_cb ≡ none)) × (u ≡ s))
      ⊎ ((f : ℕ → State.Sys → State.Sys) × (s.facade ≢ 0)
          × (e.error_cb ≡ some f)
          × (u ≡ f 60 (log (told_error 60) s)))

  -- The session of the hooks is ready for the handshake with the host and the credentials that it
  -- was given, or the application was told and the client closed, and nothing is left to free.
  abbrev pub Connects : Session → Sys → Sys → Type 0
  Connects x s t =
      (u : Setup) × (t.hooks ≡ some (record x { setup = u }))
      × ((IsStarted c (or_empty x.deferred.0) (chosen x.deferred.1) u × (t.client ≡ s.client))
          ⊎ (IsFree u × (v : State.Sys) × Told s.client v × (t.client ≡ close e v)))

  tell-Told :
      (s : State.Sys) (cb : Option (ℕ → State.Sys → State.Sys))
      → s.facade ≢ 0
      → e.error_cb ≡ cb
      → Told s (elim cb [ none ↦ s | some f ↦ f 60 (log (told_error 60) s) ])
  tell-Told s none ne same = inl (inr same, refl)
  tell-Told s (some f) ne same = inr (f, ne, same, refl)

  fail-Told : (s : State.Sys) → (v : State.Sys) × Told s v × (fail s ≡ close e v)
  unfolding fail
  fail-Told s =
      if_holds (λ r. (v : State.Sys) × Told s v × (r ≡ close e v)) (s.facade == 0) _ _
        (λ g. (s, inl (inl (ground (arith, g)), refl), refl))
        (λ g. (_, tell-Told s e.error_cb (ground (arith, g)) refl, refl))

  after_start-Connects :
      (x : Session) (step : Step) (s : Sys)
      → Ensures (IsStarted c (or_empty x.deferred.0) (chosen x.deferred.1)) step
      → Connects x s (after_start x step s)
  unfolding after_start
  after_start-Connects x (go t) s h = (t, refl, inl (h, refl))
  after_start-Connects x (stop r t) s h =
      let (v, told, same) = fail-Told s.client in (t, refl, inr (h.1, v, told, same))

  -- When a client on ESP32 whose hooks have a session that was made and not started is connected,
  -- `onConnected` leaves the session ready for the handshake, as `_startSSLClient` makes it, with
  -- the host and the credentials that were kept for it, and the client as it is; or the
  -- application is told of error -60, if the client has its facade and a callback for it, then the
  -- client is closed, and no certificate or key of the session is left to free.
  pub on_connected-Connects :
      (x : Session) (s : Sys) → s.hooks ≡ some x → IsFresh x.setup → Connects x s (on_connected s)
  unfolding on_connected start_client start
  on_connected-Connects x s e' f =
      subst (λ h. Connects x s (start h s)) (sym e')
        (after_start-Connects x _ s (
          start_ssl_client-Ensures c (or_empty x.deferred.0) (chosen x.deferred.1)
            (not (s.client.pcb == 0)) x.setup f))

  -- A call of `beginSecure`, and what happens to the client before it.
  pub record Begin : Type 0 where
    pub before : State.Sys → State.Sys
    pub made : Made
    pub fresh : Setup
    pub host : List ℕ
    pub port : ℕ
    pub credentials : Credentials

  abbrev pub begin_once : Begin → Sys → Sys
  begin_once b s =
      (begin_secure b.made b.fresh b.host b.port b.credentials
        (record s { client = b.before s.client })).1

  abbrev pub begins : List Begin → Sys → Sys
  begins [] s = s
  begins (b ∷ bs) s = begins bs (begin_once b s)

  -- Every call finds the client without a pcb, and has memory.
  abbrev pub AreFree : List Begin → Type 0
  AreFree [] = Unit {0}
  AreFree (b ∷ bs) =
      (((s : State.Sys) → (b.before s).pcb ≡ 0) × (b.made.session ≡ true) × (b.made.hooks ≡ true))
      × AreFree bs

  begin_secure-counted :
      (m : Made) (fresh : Setup) (host : List ℕ) (port : ℕ) (k : Credentials) (s : Sys)
      → s.client.pcb ≡ 0
      → m.session ≡ true
      → m.hooks ≡ true
      → let t = (begin_secure m fresh host port k s).1 in
        (t.active_count ≡ s.active_count + 1) × (has t.hooks ≡ true)
  unfolding begin_secure dial set_hooks
  begin_secure-counted m fresh host port k s closed e f =
      let counted =
        λ (r : Bool × Sys). (r.1.active_count ≡ s.active_count + 1) × (has r.1.hooks ≡ true) in
      if_holds counted (not (s.client.pcb == 0)) _ _ (λ g. absurd (ground (arith, g, closed)))
        (λ _.
          if_holds counted (m.session && m.hooks) _ _ (λ _. (omega arith, refl))
            (λ g. absurd (ground (arith, g, e, f))))

  begin_once-counted :
      (b : Begin) (s : Sys)
      → (b.before s.client).pcb ≡ 0
      → b.made.session ≡ true
      → b.made.hooks ≡ true
      → ((begin_once b s).active_count ≡ s.active_count + 1) × (has (begin_once b s).hooks ≡ true)
  begin_once-counted b s closed m h =
      begin_secure-counted b.made b.fresh b.host b.port b.credentials
        (record s { client = b.before s.client }) closed m h

  begins-counted :
      (bs : List Begin) (s : Sys)
      → AreFree bs
      → (begins bs s).active_count ≡ s.active_count + length bs
  begins-counted [] s f = omega arith
  begins-counted (b ∷ bs) s ((closed, m, h), f) = omega (
    arith,
    begins-counted bs (begin_once b s) f,
    (begin_once-counted b s (closed s.client) m h).0,
  )

  begins-has :
      (bs : List Begin) (s : Sys) → AreFree bs → has s.hooks ≡ true → has (begins bs s).hooks ≡ true
  begins-has [] s f e = e
  begins-has (b ∷ bs) s ((closed, m, h), f) e =
      begins-has bs (begin_once b s) f (begin_once-counted b s (closed s.client) m h).1

  delete_session-counted :
      (o : Option Session) (s : Sys)
      → has o ≡ true
      → (delete_session o s).active_count ≡ s.active_count - 1
  unfolding delete_session
  delete_session-counted none s e = absurd cc
  delete_session-counted (some x) s e = refl

  -- When a client on ESP32 is without a pcb at each of n + 1 calls of `beginSecure`, whatever
  -- happens to it between them, and each call has memory for its session and hooks, then after the
  -- client's end the count of sessions that were not deleted is n higher than before.
  pub begins-leaked :
      (b : Begin) (bs : List Begin) (s : Sys)
      → AreFree (b ∷ bs)
      → (delete_hooks (begins (b ∷ bs) s)).active_count ≡ s.active_count + length bs
  unfolding delete_hooks
  begins-leaked b bs s f =
      let ((closed, m, h), rest) = f in
      let first = begin_once-counted b s (closed s.client) m h in
      omega (
        arith,
        delete_session-counted (begins (b ∷ bs) s).hooks (begins (b ∷ bs) s)
            (begins-has bs (begin_once b s) rest first.1),
        begins-counted (b ∷ bs) s f,
      )
