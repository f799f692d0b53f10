-- ===== src/Server/Stale.antt =====
-- The stale-accept guard of `handle_async_event`: sessions tell the accepts of a listener apart.
use async_tcp.Prelude.{
  ◌≡◌, refl, ◌≢◌, arith, ◌⊎◌, inl, inr, ℕ, suc, ◌+◌, ◌%◌, ◌^◌, ◌<◌, ◌≤◌, Bool, List, [], ◌∷◌, ==_ne,
  ==_refl, length, ◌∙◌, ap,
}
use async_tcp.Server.{
  Server, Answers, next_session, begin, begin_listen, end, accepted, handle_accept, abort_client,
  log, bind,
}

-- What happens to a listener between an accept and its delivery.
pub data Change : Type 0 where
  begun : Answers → Change
  ended : (refused : Bool) → Change

pub change : Change → Server → Server
change (begun a) s = begin a s
change (ended refused) s = end refused s

pub changes : List Change → Server → Server
changes [] s = s
changes (c ∷ cs) s = changes cs (change c s)

begin_listen-session :
    (a : Answers) (s : Server)
    → ((begin_listen a s).session ≡ s.session)
      ⊎ ((begin_listen a s).session ≡ next_session s.session)
unfolding begin_listen
begin_listen-session a s = ground arith

begin-session :
    (a : Answers) (s : Server)
    → ((begin a s).session ≡ s.session) ⊎ ((begin a s).session ≡ next_session s.session)
unfolding begin
begin-session a s =
    let bound = log (bind a.new_pcb s.port) s in
    let listened = begin_listen-session a bound in ground (arith, listened)

end-session : (refused : Bool) (s : Server) → (end refused s).session ≡ next_session s.session
unfolding end
end-session refused s = ground arith

-- The number of changes that end the listener.
unfoldable pub ends : List Change → ℕ
ends [] = 0
ends (begun a ∷ cs) = ends cs
ends (ended refused ∷ cs) = suc (ends cs)

-- What the session moved by.
record Moved (cs : List Change) (s : Server) : Type 0 where
  by : ℕ
  least : ends cs ≤ by
  most : by ≤ length cs
  now : (changes cs s).session ≡ (s.session + by) % 2 ^ 32

Moved-same :
    (c : Change) (cs : List Change) (s : Server)
    → ends (c ∷ cs) ≡ ends cs
    → (change c s).session ≡ s.session
    → Moved cs (change c s)
    → Moved (c ∷ cs) s
unfolding changes
Moved-same c cs s e p m = record {
  by = m.by;
  least = omega (arith, e, m.least);
  most = omega (arith, m.most);
  now = m.now ∙ ap (λ x. (x + m.by) % 2 ^ 32) p;
}

Moved-next :
    (c : Change) (cs : List Change) (s : Server)
    → ends (c ∷ cs) ≤ suc (ends cs)
    → (change c s).session ≡ next_session s.session
    → Moved cs (change c s)
    → Moved (c ∷ cs) s
unfolding changes next_session
Moved-next c cs s e p m = record {
  by = suc m.by;
  least = omega (arith, e, m.least);
  most = omega (arith, m.most);
  now = m.now ∙ ap (λ x. (x + m.by) % 2 ^ 32) p ∙ omega arith;
}

next_session_bound : (s t : Server) → t.session ≡ next_session s.session → t.session < 2 ^ 32
unfolding next_session
next_session_bound s t p = omega (arith, p)

changes-Moved : (cs : List Change) (s : Server) → s.session < 2 ^ 32 → Moved cs s
unfolding changes change ends
changes-Moved [] s h = record { by = 0; least = omega arith; most = omega arith; now = omega arith }
changes-Moved (begun a ∷ cs) s h = elim (begin-session a s) [
  | inl p ↦ Moved-same (begun a) cs s refl p (changes-Moved cs (begin a s) (omega (arith, p, h)))
  | inr p ↦
      Moved-next (begun a) cs s (omega arith) p
        (changes-Moved cs (begin a s) (next_session_bound s (begin a s) p))
]
changes-Moved (ended refused ∷ cs) s h =
    let p = end-session refused s in
    Moved-next (ended refused) cs s (omega arith) p
      (changes-Moved cs (end refused s) (next_session_bound s (end refused s) p))

moved_ne :
    (cs : List Change) (s : Server)
    → s.session < 2 ^ 32
    → 0 < ends cs
    → length cs < 2 ^ 32
    → (changes cs s).session ≢ s.session
moved_ne cs s h some few =
    let m = changes-Moved cs s h in omega (arith, m.now, m.least, m.most, h, some, few)

-- The delivery of an accept event that a listener queued before it was ended, whatever it began
-- and ended since in fewer than 2^32 changes, aborts its client, and that of one that no change
-- came between gives the client to `_accepted`. Listener and client are not null.
pub handle_accept-stale :
    (cs : List Change) (client : ℕ) (s : Server)
    → s.session < 2 ^ 32
    → 0 < ends cs
    → length cs < 2 ^ 32
    → client ≢ 0
    → s.self ≢ 0
    → (handle_accept client s.self s.session (changes cs s)
        ≡ log (abort_client client) (changes cs s))
      × (handle_accept client s.self s.session s ≡ accepted client s)
unfolding handle_accept
handle_accept-stale cs client s h some few real self =
    let stale = ==_ne (changes cs s).session s.session (moved_ne cs s h some few) in
    let ne = ==_ne client 0 real in
    let se = ==_ne s.self 0 self in (rw (se, stale, ne) refl, rw (se, ==_refl s.session) refl)
