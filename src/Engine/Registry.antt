-- ===== src/Engine/Registry.antt =====
-- The list of live BearSSL sessions (src/AsyncSecureSession.cpp, ESP8266): `find_ssl_pcb`,
-- `tcp_ssl_register_pcb`, `tcp_ssl_free`, `tcp_ssl_client_count`, `tcp_ssl_new_client` and
-- `tcp_ssl_new_server`. A session is known by its address.
use async_tcp.Prelude.{
  ℕ, suc, ◌+◌, ◌-◌, ◌%◌, ◌^◌, ◌≡◌, refl, sym, ap, ◌∙◌, Bool, true, false, ◌&&◌, arith, List, [],
  ◌∷◌, ◌==◌, if◌then◌else◌, if_holds, length, Option, none, some, ==_refl, Bool-cases, inl, inr,
  is_some,
}

pub record Entry : Type 0 where
  pub address : ℕ
  pub tcp : ℕ
  pub is_server : Bool

-- `tcp_ssl_pcbs`, the references that sessions hold on the StackThunk stack, and how often
-- `tcp_ssl_shed_parked` was called.
pub record Registry : Type 0 where
  pub tcp_ssl_pcbs : List Entry
  pub thunk_refs : ℕ
  pub sheds : ℕ

unfoldable pub find_ssl_pcb : List Entry → ℕ → Option Entry
find_ssl_pcb [] pcb = none
find_ssl_pcb (e ∷ es) pcb = let rest = find_ssl_pcb es pcb in if e.tcp == pcb then some e else rest

unfoldable pub tcp_ssl_register_pcb : Registry → Entry → Registry
tcp_ssl_register_pcb r e = record r {
  tcp_ssl_pcbs = e ∷ r.tcp_ssl_pcbs;
  thunk_refs = r.thunk_refs + 1;
}

-- The list without its first entry for the pcb.
unfoldable pub without : List Entry → ℕ → List Entry
without [] pcb = []
without (e ∷ es) pcb = let rest = without es pcb in if e.tcp == pcb then es else e ∷ rest

unfoldable pub shed_when_empty : List Entry → ℕ → ℕ
shed_when_empty [] n = n + 1
shed_when_empty (e ∷ es) n = n

unfoldable pub tcp_ssl_free : Registry → ℕ → Bool × Registry
tcp_ssl_free r pcb =
    let left = without r.tcp_ssl_pcbs pcb in
    if is_some (find_ssl_pcb r.tcp_ssl_pcbs pcb)
    then (
      true,
      record {
        tcp_ssl_pcbs = left;
        thunk_refs = r.thunk_refs - 1;
        sheds = shed_when_empty left r.sheds;
      },
    )
    else (false, r)

unfoldable pub count_servers : List Entry → ℕ
count_servers [] = 0
count_servers (e ∷ es) =
    let rest = count_servers es in if e.is_server then (rest + 1) % 2 ^ 8 else rest

unfoldable pub tcp_ssl_client_count : Registry → ℕ
tcp_ssl_client_count r = count_servers r.tcp_ssl_pcbs

-- What the allocations and the engine's reset answer. `x509` is what happens when the caller gives
-- no validator.
pub record Answers : Type 0 where
  pub pcb_found : Bool
  pub slab_found : Bool
  pub context_found : Bool
  pub x509_given : Bool
  pub x509_found : Bool
  pub reset : Bool

unfoldable pub or_else : Bool → Bool → Bool
or_else true y = true
or_else false y = y

-- `tcp_ssl_new_client`; `pcb` is none for a null pointer. At the end it runs the engine, which yields
-- and calls back: `run_engine` is what that does to the state of the caller, in which `put` sets the
-- list, and may free the session.
unfoldable pub tcp_ssl_new_client :
    {S : Type 0} → (Registry → S) → (S → S) → Answers → Registry → Option ℕ → ℕ → Bool × S
tcp_ssl_new_client put run_engine a r none address = (false, put r)
tcp_ssl_new_client put run_engine a r (some pcb) address =
    let e : Entry = record { address = address; tcp = pcb; is_server = false } in
    if a.pcb_found
      && a.slab_found
      && a.context_found
      && or_else a.x509_given a.x509_found
      && a.reset
    then (true, run_engine (put (tcp_ssl_register_pcb r e)))
    else (false, put r)

-- `tcp_ssl_new_server`; `ctx` says whether there is a context.
unfoldable pub tcp_ssl_new_server : Answers → Registry → Option ℕ → Bool → ℕ → Bool × Registry
tcp_ssl_new_server a r none ctx address = (false, r)
tcp_ssl_new_server a r (some pcb) ctx address =
    let e : Entry = record { address = address; tcp = pcb; is_server = true } in
    if ctx && a.pcb_found && a.slab_found && a.reset
    then (true, tcp_ssl_register_pcb r e)
    else (false, r)

-- The stack has one reference for each session.
pub record IsCounted (r : Registry) : Type 0 where
  pub refs : r.thunk_refs ≡ length r.tcp_ssl_pcbs

length-without :
    (es : List Entry) (pcb : ℕ)
    → is_some (find_ssl_pcb es pcb) ≡ true
    → suc (length (without es pcb)) ≡ length es
unfolding find_ssl_pcb without
length-without [] pcb h = absurd cc
length-without (e ∷ es) pcb h = elim (Bool-cases (e.tcp == pcb)) [
  | inl here ↦ ap (λ c. suc (length (if c then es else e ∷ without es pcb))) here
  | inr later ↦
      let found : is_some (find_ssl_pcb es pcb) ≡ true =
        ap (λ c. is_some (if c then some e else find_ssl_pcb es pcb)) (sym later) ∙ h in
      ap (λ c. suc (length (if c then es else e ∷ without es pcb))) later
      ∙ ap suc (length-without es pcb found)
]

free-IsCounted : (r : Registry) (pcb : ℕ) → IsCounted r → IsCounted (tcp_ssl_free r pcb).1
unfolding tcp_ssl_free
free-IsCounted r pcb c =
    let es = r.tcp_ssl_pcbs in
    let found = is_some (find_ssl_pcb es pcb) in
    let gone : Bool × Registry = (
      true,
      record {
        tcp_ssl_pcbs = without es pcb;
        thunk_refs = r.thunk_refs - 1;
        sheds = shed_when_empty (without es pcb) r.sheds;
      },
    ) in
    if_holds (λ (o : Bool × Registry). IsCounted o.1) found gone (false, r)
      (λ here. record { refs = omega (arith, c.refs, length-without es pcb here) }) (λ _. c)

register-IsCounted : (r : Registry) (e : Entry) → IsCounted r → IsCounted (tcp_ssl_register_pcb r e)
unfolding tcp_ssl_register_pcb
register-IsCounted r e c = record { refs = omega (arith, c.refs) }

client-IsCounted :
    (run_engine : Registry → Registry) (a : Answers) (r : Registry) (pcb : Option ℕ) (address : ℕ)
    → ((r : Registry) → IsCounted r → IsCounted (run_engine r))
    → IsCounted r
    → IsCounted (tcp_ssl_new_client (λ r. r) run_engine a r pcb address).1
unfolding tcp_ssl_new_client
client-IsCounted run_engine a r none address keeps c = c
client-IsCounted run_engine a r (some pcb) address keeps c =
    let e : Entry = record { address = address; tcp = pcb; is_server = false } in
    if_holds (λ (o : Bool × Registry). IsCounted o.1)
      (a.pcb_found
        && a.slab_found
        && a.context_found
        && or_else a.x509_given a.x509_found
        && a.reset)
      (true, run_engine (tcp_ssl_register_pcb r e)) (false, r)
      (λ _. keeps (tcp_ssl_register_pcb r e) (register-IsCounted r e c)) (λ _. c)

server-IsCounted :
    (a : Answers) (r : Registry) (pcb : Option ℕ) (ctx : Bool) (address : ℕ)
    → IsCounted r
    → IsCounted (tcp_ssl_new_server a r pcb ctx address).1
unfolding tcp_ssl_new_server
server-IsCounted a r none ctx address c = c
server-IsCounted a r (some pcb) ctx address c =
    let e : Entry = record { address = address; tcp = pcb; is_server = true } in
    if_holds (λ (o : Bool × Registry). IsCounted o.1)
      (ctx && a.pcb_found && a.slab_found && a.reset) (true, tcp_ssl_register_pcb r e) (false, r)
      (λ _. register-IsCounted r e c) (λ _. c)

-- The calls on the list; a client's has what the run of its engine does.
pub data Op : Type 0 where
  new_client : (Registry → Registry) → Answers → Option ℕ → ℕ → Op
  new_server : Answers → Option ℕ → Bool → ℕ → Op
  free_pcb : ℕ → Op

unfoldable pub step : Registry → Op → Registry
step r (new_client run_engine a pcb address) =
    (tcp_ssl_new_client (λ r. r) run_engine a r pcb address).1
step r (new_server a pcb ctx address) = (tcp_ssl_new_server a r pcb ctx address).1
step r (free_pcb pcb) = (tcp_ssl_free r pcb).1

unfoldable pub run : Registry → List Op → Registry
run r [] = r
run r (op ∷ ops) = run (step r op) ops

-- What happens while an engine runs keeps one reference for each session.
abbrev pub Keeps : Op → Type 0
Keeps (new_client run_engine a pcb address) =
    (r : Registry) → IsCounted r → IsCounted (run_engine r)
Keeps (new_server a pcb ctx address) = Unit {0}
Keeps (free_pcb pcb) = Unit {0}

abbrev pub AllKeep : List Op → Type 0
AllKeep [] = Unit {0}
AllKeep (op ∷ ops) = Keeps op × AllKeep ops

step-IsCounted : (r : Registry) (op : Op) → Keeps op → IsCounted r → IsCounted (step r op)
unfolding step
step-IsCounted r (new_client run_engine a pcb address) k c =
    client-IsCounted run_engine a r pcb address k c
step-IsCounted r (new_server a pcb ctx address) k c = server-IsCounted a r pcb ctx address c
step-IsCounted r (free_pcb pcb) k c = free-IsCounted r pcb c

-- From a list of sessions that holds one reference on the thunk stack for each, this holds after
-- any sequence of starts and frees, whatever the allocations and the engine's reset answer, where
-- what happens while the engine of a new client runs keeps it.
pub run-IsCounted :
    (ops : List Op) (r : Registry) → AllKeep ops → IsCounted r → IsCounted (run r ops)
unfolding run
run-IsCounted [] r k c = c
run-IsCounted (op ∷ ops) r (k, ks) c = run-IsCounted ops (step r op) ks (step-IsCounted r op k c)

-- A new session is the one found for its pcb, and freeing it gives the list back.
pub tcp_ssl_free-tcp_ssl_register_pcb :
    (r : Registry) (e : Entry)
    → (find_ssl_pcb (tcp_ssl_register_pcb r e).tcp_ssl_pcbs e.tcp ≡ some e)
      × (tcp_ssl_free (tcp_ssl_register_pcb r e) e.tcp
          ≡ (true, record r { sheds = shed_when_empty r.tcp_ssl_pcbs r.sheds }))
unfolding tcp_ssl_register_pcb tcp_ssl_free find_ssl_pcb without
tcp_ssl_free-tcp_ssl_register_pcb r e =
    let back : r.thunk_refs + 1 - 1 ≡ r.thunk_refs = omega arith in
    rw (==_refl e.tcp, back) (refl, refl)
