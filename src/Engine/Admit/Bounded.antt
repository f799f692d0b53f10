-- ===== src/Engine/Admit/Bounded.antt =====
-- The sessions that the server of ESP8266 has, and what a failed start does to a pcb.
use async_tcp.Prelude.{
  ℕ, suc, ◌+◌, ◌-◌, ◌%◌, ◌^◌, ◌≤◌, ◌≡◌, refl, sym, ap, ◌∙◌, subst, Bool, true, false, not, ◌&&◌,
  arith, List, [], ◌∷◌, leb, ◌==◌, if◌then◌else◌, if_holds, if_true, if_false, Option, none, some,
  Bool-cases, inl, inr, is_some,
}
use native.Mathlib.Nat.{mod-eq_of_lt}
use async_tcp.Engine.Registry.{
  Entry, Registry, Answers, count_servers, tcp_ssl_client_count, tcp_ssl_new_server, tcp_ssl_free,
  without, find_ssl_pcb, shed_when_empty, tcp_ssl_register_pcb,
}
use async_tcp.Engine.Admit.{
  Found, Server, Call, tcp_close, tcp_abort, nagle_disable, log, drop_pcb, delete_client,
  delete_session, started, serve_tls, need_park, accept_tls, on_accept, ssl_max_connections,
}

-- The sessions of servers in the list.
abbrev pub servers : List Entry → ℕ
servers [] = 0
servers (e ∷ es) = if e.is_server then suc (servers es) else servers es

count-servers : (es : List Entry) → servers es ≤ 1 → count_servers es ≡ servers es
unfolding count_servers
count-servers [] h = refl
count-servers (e ∷ es) h = elim (Bool-cases e.is_server) [
  | inl yes_server ↦
      let le : suc (servers es) ≤ 1 =
        subst (λ n. n ≤ 1) (if_true e.is_server (suc (servers es)) (servers es) yes_server) h in
      let rest = count-servers es (omega arith) in
      let same : (count_servers es + 1) % 2 ^ 8 ≡ suc (servers es) =
        ap (λ k. (k + 1) % 2 ^ 8) rest ∙ mod-eq_of_lt (omega arith) ∙ omega arith in
      if_true e.is_server _ (count_servers es) yes_server
      ∙ same
      ∙ sym (if_true e.is_server _ _ yes_server)
  | inr no_server ↦
      let le : servers es ≤ 1 =
        subst (λ n. n ≤ 1) (if_false e.is_server (suc (servers es)) (servers es) no_server) h in
      if_false e.is_server _ (count_servers es) no_server
      ∙ count-servers es le
      ∙ sym (if_false e.is_server _ _ no_server)
]

servers-tail : (e : Entry) (es : List Entry) → servers es ≤ servers (e ∷ es)
servers-tail e es =
    if_holds (λ n. servers es ≤ n) e.is_server _ _ (λ _. omega arith) (λ _. omega arith)

servers-cons_le :
    (e : Entry) (xs ys : List Entry) → servers xs ≤ servers ys → servers (e ∷ xs) ≤ servers (e ∷ ys)
servers-cons_le e xs ys h = elim (Bool-cases e.is_server) [
  | inl yes_server ↦ rw yes_server (omega arith)
  | inr no_server ↦ rw no_server h
]

servers-without : (es : List Entry) (pcb : ℕ) → servers (without es pcb) ≤ servers es
unfolding without
servers-without [] pcb = omega arith
servers-without (e ∷ es) pcb =
    if_holds (λ (xs : List Entry). servers xs ≤ servers (e ∷ es)) (e.tcp == pcb) es
      (e ∷ without es pcb) (λ _. servers-tail e es)
      (λ _. servers-cons_le e (without es pcb) es (servers-without es pcb))

abbrev pub live : Registry → ℕ
live r = servers r.tcp_ssl_pcbs

free-live : (r : Registry) (pcb : ℕ) → live (tcp_ssl_free r pcb).1 ≤ live r
unfolding tcp_ssl_free
free-live r pcb =
    let left = without r.tcp_ssl_pcbs pcb in
    let gone : Bool × Registry = (
      true,
      record {
        tcp_ssl_pcbs = left;
        thunk_refs = r.thunk_refs - 1;
        sheds = shed_when_empty left r.sheds;
      },
    ) in
    if_holds (λ (o : Bool × Registry). live o.1 ≤ live r)
      (is_some (find_ssl_pcb r.tcp_ssl_pcbs pcb)) gone (false, r)
      (λ _. servers-without r.tcp_ssl_pcbs pcb) (λ _. omega arith)

new-live :
    (a : Answers) (r : Registry) (pcb address : ℕ)
    → live (tcp_ssl_new_server a r (some pcb) true address).1 ≤ suc (live r)
unfolding tcp_ssl_new_server tcp_ssl_register_pcb
new-live a r pcb address =
    let e : Entry = record { address = address; tcp = pcb; is_server = true } in
    if_holds (λ (o : Bool × Registry). live o.1 ≤ suc (live r))
      (true && a.pcb_found && a.slab_found && a.reset) (true, tcp_ssl_register_pcb r e) (false, r)
      (λ _. omega arith) (λ _. omega arith)

module _ (f : Found) where
  drop_pcb-live : (s : Server) (pcb : ℕ) → live (drop_pcb f s pcb).sessions ≡ live s.sessions
  unfolding drop_pcb log
  drop_pcb-live s pcb =
      if_holds (λ (t : Server). live t.sessions ≡ live s.sessions) (f.closes s.calls) _ _
        (λ _. refl) (λ _. refl)

  delete_client-live :
      (s : Server) (pcb : ℕ) → live (delete_client f s pcb).sessions ≡ live s.sessions
  unfolding delete_client
  delete_client-live s pcb = drop_pcb-live (drop_pcb f s pcb) pcb ∙ drop_pcb-live s pcb

  started-live :
      (r : Bool × Registry) (s : Server) (pcb : ℕ) → live (started f r s pcb).1.sessions ≤ live r.1
  unfolding started log delete_session
  started-live (false, r) s pcb = omega (arith, delete_client-live (record s { sessions = r }) pcb)
  started-live (true, r) s pcb =
      let t : Server = record s { sessions = r } in
      if_holds (λ (o : Bool × Server). live o.1.sessions ≤ live r) f.hooks
        (true, log f t (nagle_disable pcb)) (false, delete_client f (delete_session f t pcb) pcb)
        (λ _. omega arith)
        (λ _. omega (arith, delete_client-live (delete_session f t pcb) pcb, free-live r pcb))

  -- One session of a server at most, before and after.
  abbrev pub IsBounded : Server → Type 0
  IsBounded s = live s.sessions ≤ 1

  serve_tls-IsBounded :
      (s : Server) (pcb address : ℕ) → IsBounded s → IsBounded (serve_tls f s pcb address).1
  unfolding serve_tls tcp_ssl_client_count
  serve_tls-IsBounded s pcb address h =
      let begun = tcp_ssl_new_server f.start s.sessions (some pcb) true address in
      let stays : live (drop_pcb f s pcb).sessions ≤ 1 = omega (arith, drop_pcb-live s pcb) in
      let room : leb ssl_max_connections (count_servers s.sessions.tcp_ssl_pcbs) ≡ false
          → live s.sessions ≡ 0 =
        λ free. ground (arith, count-servers s.sessions.tcp_ssl_pcbs h) in
      if_holds (λ (o : Bool × Server). live o.1.sessions ≤ 1)
        (leb ssl_max_connections (count_servers s.sessions.tcp_ssl_pcbs)) (false, drop_pcb f s pcb)
        (if f.client
          then (if f.session then started f begun s pcb else (false, delete_client f s pcb))
          else (false, drop_pcb f s pcb))
        (λ _. stays)
        (λ free.
          if_holds (λ (o : Bool × Server). live o.1.sessions ≤ 1) f.client
            (if f.session then started f begun s pcb else (false, delete_client f s pcb))
            (false, drop_pcb f s pcb)
            (λ _.
              if_holds (λ (o : Bool × Server). live o.1.sessions ≤ 1) f.session
                (started f begun s pcb) (false, delete_client f s pcb)
                (λ _. omega (
                  arith,
                  room free,
                  started-live begun s pcb,
                  new-live f.start s.sessions pcb address,
                ))
                (λ _. omega (arith, delete_client-live s pcb)))
            (λ _. stays))

  accept_tls-IsBounded :
      (s : Server) (pcb address : ℕ) → IsBounded s → IsBounded (accept_tls f s pcb address).1
  unfolding accept_tls log
  accept_tls-IsBounded s pcb address h =
      let refused : Option ℕ × Server = (some 13, log f s (tcp_abort pcb)) in
      let served : Option ℕ × Server = (some 0, (serve_tls f s pcb address).1) in
      let dropped : Option ℕ × Server = (some 0, drop_pcb f s pcb) in
      let admit = if need_park f s then refused else served in
      let P : Option ℕ × Server → Type 0 = λ o. IsBounded o.1 in
      if_holds P (not f.has_ctx) (none, s) (if not f.has_handler then dropped else admit) (λ _. h)
        (λ _.
          if_holds P (not f.has_handler) dropped admit (λ _. omega (arith, drop_pcb-live s pcb))
            (λ _.
              if_holds P (need_park f s) refused served (λ _. h)
                (λ _. serve_tls-IsBounded s pcb address h)))

  on_accept-IsBounded :
      (s : Server) (pcb address : ℕ) → IsBounded s → IsBounded (on_accept f s pcb address).1
  unfolding on_accept log
  on_accept-IsBounded s pcb address h =
      if_holds (λ (t : Server). IsBounded (accept_tls f t pcb address).1) f.has_ctx _ _
        (λ _. accept_tls-IsBounded (log f s (nagle_disable pcb)) pcb address h)
        (λ _. accept_tls-IsBounded s pcb address h)

-- What happens to a server: connections, and sessions that end.
pub data Op : Type 0 where
  accepts : Found → ℕ → ℕ → Op
  ends : ℕ → Op

unfoldable pub run : Server → List Op → Server
run s [] = s
run s (accepts f pcb address ∷ ops) = run (on_accept f s pcb address).1 ops
run s (ends pcb ∷ ops) = run (record s { sessions = (tcp_ssl_free s.sessions pcb).1 }) ops

-- From a list with at most one session of a server, the TLS server of ESP8266 has at most one
-- after any sequence of connections and ends of sessions, whatever the heap, the allocations and
-- the engine answer.
pub run-live : (ops : List Op) (s : Server) → live s.sessions ≤ 1 → live (run s ops).sessions ≤ 1
unfolding run
run-live [] s h = h
run-live (accepts f pcb address ∷ ops) s h =
    run-live ops (on_accept f s pcb address).1 (on_accept-IsBounded f s pcb address h)
run-live (ends pcb ∷ ops) s h =
    run-live ops (record s { sessions = (tcp_ssl_free s.sessions pcb).1 })
      (omega (arith, free-live s.sessions pcb))

module _ (f : Found) (closes : (calls : List Call) → f.closes calls ≡ true) where
  drop-calls : (s : Server) (pcb : ℕ) → (drop_pcb f s pcb).calls ≡ tcp_close pcb true ∷ s.calls
  unfolding drop_pcb log
  drop-calls s pcb =
      ap (λ (t : Server). t.calls)
        (if_true (f.closes s.calls)
          (record s { calls = tcp_close pcb (f.closes s.calls) ∷ s.calls }) _ (closes s.calls))
      ∙ ap (λ ok. tcp_close pcb ok ∷ s.calls) (closes s.calls)

  delete-calls :
      (s : Server) (pcb : ℕ)
      → (delete_client f s pcb).calls ≡ tcp_close pcb true ∷ tcp_close pcb true ∷ s.calls
  unfolding delete_client
  delete-calls s pcb =
      drop-calls (drop_pcb f s pcb) pcb ∙ ap (λ l. tcp_close pcb true ∷ l) (drop-calls s pcb)

  Twice : Server → ℕ → Bool × Server → Type 0
  Twice s pcb r = r.0 ≡ false → r.1.calls ≡ tcp_close pcb true ∷ tcp_close pcb true ∷ s.calls

  started-Twice : (r : Bool × Registry) (s : Server) (pcb : ℕ) → Twice s pcb (started f r s pcb)
  unfolding started delete_session Twice
  started-Twice (false, r) s pcb = λ failed. delete-calls (record s { sessions = r }) pcb
  started-Twice (true, r) s pcb =
      let t : Server = record s { sessions = r } in
      if_holds (Twice s pcb) f.hooks (true, log f t (nagle_disable pcb))
        (false, delete_client f (delete_session f t pcb) pcb) (λ _ failed. absurd cc)
        (λ _ failed. delete-calls (delete_session f t pcb) pcb)

  -- Where no server session is live, a client can be made and lwIP closes every pcb it is asked
  -- to, a start that fails closes the same pcb twice.
  pub serve_tls-delete_client :
      (s : Server) (pcb address : ℕ)
      → tcp_ssl_client_count s.sessions ≡ 0
      → f.client ≡ true
      → (serve_tls f s pcb address).0 ≡ false
      → (serve_tls f s pcb address).1.calls ≡ tcp_close pcb true ∷ tcp_close pcb true ∷ s.calls
  unfolding serve_tls Twice
  serve_tls-delete_client s pcb address free made =
      let begun = tcp_ssl_new_server f.start s.sessions (some pcb) true address in
      let inner = if f.session then started f begun s pcb else (false, delete_client f s pcb) in
      let chosen =
        if_false (leb ssl_max_connections (tcp_ssl_client_count s.sessions))
          (false, drop_pcb f s pcb) (if f.client then inner else (false, drop_pcb f s pcb))
          (ground (arith, free))
        ∙ if_true f.client inner (false, drop_pcb f s pcb) made in
      subst (Twice s pcb) (sym chosen) (
        if_holds (Twice s pcb) f.session (started f begun s pcb) (false, delete_client f s pcb)
          (λ _. started-Twice begun s pcb) (λ _ failed. delete-calls s pcb))
