-- ===== src/Client/Status.antt =====
-- The status queries of AsyncClientImpl in src/AsyncTCP.cpp, on lwIP's `tcp_state` of the pcb:
-- CLOSED is 0, ESTABLISHED is 4 and TIME_WAIT is 10, the last.
use async_tcp.Prelude.{
  ◌≡◌, refl, ◌≢◌, arith, ℕ, ◌+◌, ◌≤◌, Bool, true, false, not, ◌&&◌, ◌||◌, ◌==◌, ltb, inl, inr,
  Bool-cases, ==_iff, ==_ne, subst, sym, if◌then◌else◌, Option, none,
}
use async_tcp.Client.State.{Sys, Hooks, Env, log, look_up, err_ok, err_conn, err_inprogress}
use async_tcp.Client.Transport.{purge_events, tcp_abort, tcp_abort_no_sys, tcp_write}
use async_tcp.Client.Api.{connect, connect_found, connect_host, space, add, add_with, add_plain}

abbrev pub time_wait : ℕ
time_wait = 10

abbrev pub established : ℕ
established = 4

unfoldable pub state : Env → Sys → ℕ
state e s = if s.pcb == 0 then 0 else e.pcb_state s s.pcb

unfoldable pub connected : Env → Sys → Bool
connected e s = not (s.pcb == 0) && (e.pcb_state s s.pcb == established)

unfoldable pub connecting : Env → Sys → Bool
connecting e s =
    let x = e.pcb_state s s.pcb in
    not (s.dns_token == 0) || (not (s.pcb == 0) && (ltb 0 x && ltb x established))

unfoldable pub disconnecting : Env → Sys → Bool
disconnecting e s =
    let x = e.pcb_state s s.pcb in not (s.pcb == 0) && (ltb established x && ltb x time_wait)

unfoldable pub disconnected : Env → Sys → Bool
disconnected e s =
    let x = e.pcb_state s s.pcb in
    (s.dns_token == 0) && ((s.pcb == 0) || ((x == 0) || (x == time_wait)))

unfoldable pub freeable : Env → Sys → Bool
freeable e s =
    let x = e.pcb_state s s.pcb in
    (s.dns_token == 0) && ((s.pcb == 0) || ((x == 0) || ltb established x))

unfoldable pub free : Env → Sys → Bool
free e s = let x = e.pcb_state s s.pcb in (s.pcb == 0) || ((x == 0) || ltb established x)

unfoldable pub can_send : Env → Sys → Bool
can_send e s = ltb 0 (space e s)

-- 1 for true.
abbrev pub one_if : Bool → ℕ
one_if b = if b then 1 else 0

-- While no name is looked up, and for a state of lwIP up to TIME_WAIT, exactly one of the four
-- queries is true.
pub status-one :
    (e : Env) (s : Sys)
    → s.dns_token ≡ 0
    → e.pcb_state s s.pcb ≤ time_wait
    → one_if (connected e s)
        + one_if (connecting e s)
        + one_if (disconnecting e s)
        + one_if (disconnected e s)
      ≡ 1
unfolding connected connecting disconnecting disconnected
status-one e s d le = ground arith

-- The tests of `connect`, for a property of the state where all are passed.
abbrev tests : Bool → Bool → Bool → Sys → Sys → Sys → Bool × Sys
tests a b c s t u =
    if not a then (false, s) else (if b then (false, s) else (if c then (true, t) else (false, u)))

connect-cases :
    (P : Sys → Type 0) (a b c : Bool) (s t u : Sys)
    → (a ≡ true → P t)
    → (tests a b c s t u).0 ≡ true
    → P (tests a b c s t u).1
connect-cases P true true c s t u k p = absurd (ground arith)
connect-cases P true false true s t u k p = k refl
connect-cases P true false false s t u k p = absurd (ground arith)
connect-cases P false b c s t u k p = absurd (ground arith)

connect-idle :
    (e : Env) (addr port : ℕ) (s : Sys)
    → (connect e addr port s).0 ≡ true
    → (((connect e addr port s).1).pcb ≡ 0) × (((connect e addr port s).1).dns_token ≡ 0)
unfolding connect
connect-idle e addr port s p =
    connect-cases (λ t. (t.pcb ≡ 0) × (t.dns_token ≡ 0)) (s.pcb == 0) _ _ _ _ _
      (λ q. ((==_iff s.pcb 0).0 q, refl)) p

idle-unseen :
    (e : Env) (t : Sys)
    → t.pcb ≡ 0
    → t.dns_token ≡ 0
    → (disconnected e t ≡ true) × ((freeable e t ≡ true) × (connecting e t ≡ false))
unfolding disconnected freeable connecting
idle-unseen e t p q = ground arith

-- After a `connect` that answers true, the client says that it is disconnected and freeable, and
-- not that it is connecting.
pub connect-unseen :
    (e : Env) (addr port : ℕ) (s : Sys)
    → (connect e addr port s).0 ≡ true
    → (disconnected e (connect e addr port s).1 ≡ true)
      × ((freeable e (connect e addr port s).1 ≡ true)
          × (connecting e (connect e addr port s).1 ≡ false))
connect-unseen e addr port s p =
    let idle = connect-idle e addr port s p in idle-unseen e (connect e addr port s).1 idle.0 idle.1

add-cases :
    (b : Bool) (s : Sys) (r : ℕ × Sys) (size room : ℕ)
    → r.0 ≤ size
    → r.0 ≤ room
    → ((if b then (0, s) else r).0 ≤ size) × ((if b then (0, s) else r).0 ≤ room)
add-cases true s r size room p q = omega arith
add-cases false s r size room p q = (p, q)

add_plain-bound :
    (e : Env) (will_send flags : ℕ) (s : Sys) → (add_plain e will_send flags s).0 ≤ will_send
unfolding add_plain
add_plain-bound e will_send flags s = elim (Bool-cases ((tcp_write e will_send flags s).0 == 0)) [
  | inl p ↦ rw p (omega arith)
  | inr p ↦ rw p (omega arith)
]

add_with-bound :
    (e : Env) (o : Option Hooks) (size will_send flags : ℕ) (s : Sys)
    → o ≡ none
    → (add_with e o size will_send flags s).0 ≤ will_send
unfolding add_with
add_with-bound e o size will_send flags s p =
    subst (λ h. (add_with e h size will_send flags s).0 ≤ will_send) (sym p)
      (add_plain-bound e will_send flags s)

-- Without TLS hooks, `add` takes no more than it is given, and no more than the send buffer has
-- room for.
pub add-fits :
    (e : Env) (null : Bool) (size flags : ℕ) (s : Sys)
    → e.hooks ≡ none
    → ((add e null size flags s).0 ≤ size) × ((add e null size flags s).0 ≤ space e s)
unfolding add
add-fits e null size flags s h =
    let room = space e s in
    let will_send : ℕ = if ltb room size then room else size in
    let le : (add_with e e.hooks size will_send flags s).0 ≤ will_send =
      add_with-bound e e.hooks size will_send flags s h in
    add-cases ((s.pcb == 0) || ((size == 0) || (null || (room == 0)))) s
      (add_with e e.hooks size will_send flags s) size room (ground arith) (ground arith)

-- On a client whose pcb is gone and which has an event in the queue, the ESP8266 version of
-- `_tcp_abort` says ERR_OK; the other says ERR_CONN and leaves the queue as it is.
pub abort-dead :
    (s : Sys)
    → s.pcb ≡ 0
    → (purge_events s).0 ≢ 0
    → ((tcp_abort_no_sys s).0 ≡ err_ok)
      × (((tcp_abort s).0 ≡ err_conn) × (((tcp_abort s).1).queue ≡ s.queue))
unfolding tcp_abort tcp_abort_no_sys
abort-dead s p n = rw ((==_iff s.pcb 0).1 p) (rw (==_ne (purge_events s).0 0 n) refl, (refl, refl))

connect_found-failed :
    (e : Env) (port n : ℕ) (s : Sys) (found : ℕ × ℕ)
    → found.0 ≡ n
    → n ≢ err_ok
    → n ≢ err_inprogress
    → connect_found e port s found ≡ (false, s)
unfolding connect_found
connect_found-failed e port n s (err, addr) p q r =
    rw (p, ==_ne n err_ok q, ==_ne n err_inprogress r) refl

waiting-connecting :
    (e : Env) (t : Sys)
    → t.dns_token ≢ 0
    → (connecting e t ≡ true) × ((disconnected e t ≡ false) × (freeable e t ≡ false))
unfolding connecting disconnected freeable
waiting-connecting e t h = rw (==_ne t.dns_token 0 h) (refl, (refl, refl))

-- When the lookup of a name fails at once, `connect` answers false, and the client says that it is
-- connecting, and neither disconnected nor freeable.
pub connect_host-stuck :
    (e : Env) (port n : ℕ) (s : Sys)
    → ((t : Sys) → (e.gethostbyname t).0 ≡ n)
    → n ≢ err_ok
    → n ≢ err_inprogress
    → e.new_token s ≢ 0
    → let r = connect_host e true port s in
      (r.0 ≡ false)
      × ((connecting e r.1 ≡ true) × ((disconnected e r.1 ≡ false) × (freeable e r.1 ≡ false)))
unfolding connect_host
connect_host-stuck e port n s fails not_ok not_waiting token =
    let token_of = e.new_token s in
    let asked =
      log (look_up token_of) (record s { client = record s.client { dns_token = token_of } }) in
    rw
      (connect_found-failed e port n asked (e.gethostbyname asked) (fails asked) not_ok not_waiting)
      (refl, waiting-connecting e asked token)
