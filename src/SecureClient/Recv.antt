-- ===== src/SecureClient/Recv.antt =====
-- What `onRecv` acknowledges and holds on ESP32.
use async_tcp.Prelude.{
  ℕ, zero, suc, ◌+◌, ◌≡◌, refl, ◌∙◌, Bool, true, not, Option, none, some, List, [], ◌∷◌, ◌++◌,
  arith, ◌==◌, if_holds, length,
}
use async_tcp.Session.Rx.{Bio, Allocator, Session, feed_rx, feed_rx_data, drain}
use async_tcp.SecureClient.{
  Answer, result, want, ended, failed, Tls, Note, connect_event, data_event, error, recved, Sys,
  Env, notify, set_tls, close_client, give_up, Shaken, done, retry, broken, refused, verify, shake,
  start_clock, run_ssl_handshake, ssl_got, ssl_read, Stop, drained, left, error_stop, read_turn,
  read_loop, credit, feed, second_pass, after_reads, after_handshake, recv_fed, on_recv,
}

-- The bytes of a chain, what was acknowledged, and what the application was given.
abbrev pub bytes_of : List (List ℕ) → ℕ
bytes_of [] = 0
bytes_of (p ∷ ps) = length p + bytes_of ps

abbrev pub credits : List Note → ℕ
credits [] = 0
credits (recved n ∷ log) = credits log + n
credits (c ∷ log) = credits log

abbrev pub delivered : List Note → List ℕ
delivered [] = []
delivered (data_event bytes ∷ log) = delivered log ++ bytes
delivered (c ∷ log) = delivered log

bytes_of-append : (ps qs : List (List ℕ)) → bytes_of (ps ++ qs) ≡ bytes_of ps + bytes_of qs
bytes_of-append [] qs = omega arith
bytes_of-append (p ∷ ps) qs = omega (arith, bytes_of-append ps qs)

-- What `feedRx` counts is what left the chain.
drain-count :
    (a : Allocator) (b : Option Bio) (ps : List (List ℕ)) (n : ℕ)
    → (drain a b ps n).0 + bytes_of (drain a b ps n).1.pending_pbufs ≡ n + bytes_of ps
unfolding drain
drain-count a b [] n = refl
drain-count a b (p ∷ ps) n =
    let f = feed_rx_data a b p in
    let rest = drain a f.1 ps (n + length p) in
    let kept : ℕ × Session = (n, record { bio = f.1; pending_pbufs = p ∷ ps }) in
    if_holds (λ (r : ℕ × Session). r.0 + bytes_of r.1.pending_pbufs ≡ n + (length p + bytes_of ps))
      f.0 rest kept (λ _. omega (arith, drain-count a f.1 ps (n + length p))) (λ _. refl)

feed_rx-count :
    (a : Allocator) (s : Session) (pb : List (List ℕ))
    → (feed_rx a s pb).0 + bytes_of (feed_rx a s pb).1.pending_pbufs
      ≡ bytes_of s.pending_pbufs + bytes_of pb
unfolding feed_rx
feed_rx-count a s pb =
    omega (arith, drain-count a s.bio (s.pending_pbufs ++ pb) 0, bytes_of-append s.pending_pbufs pb)

module _ {M : Type 0} where
  -- The bytes acknowledged and those held.
  abbrev pub settled : Sys M → ℕ
  settled s = credits s.log + bytes_of s.tls.rx.pending_pbufs

  -- Callbacks of the application acknowledge nothing, take nothing off the chain, and deliver
  -- nothing themselves.
  pub record IsQuiet (env : Env M) : Type 0 where
    pub settles : (n : Note) (s : Sys M) → settled (env.app n s) ≡ settled s
    pub delivers : (n : Note) (s : Sys M) → delivered (env.app n s).log ≡ delivered s.log

module _ {M : Type 0} (env : Env M) (quiet : IsQuiet env) where
  module _ (k : ℕ) where
    notify-settled :
        (s : Sys M) (n : Note)
        → settled (record s { log = n ∷ s.log }) ≡ k
        → settled (notify env s n) ≡ k
    unfolding notify
    notify-settled s n e = quiet.settles n (record s { log = n ∷ s.log }) ∙ e

    give_up-settled : (s : Sys M) (code : ℕ) → settled s ≡ k → settled (give_up env s code) ≡ k
    unfolding give_up close_client
    give_up-settled s code e = notify-settled s (error code) e

    verify-settled : (s : Sys M) → settled s ≡ k → settled (verify env s).1 ≡ k
    unfolding verify set_tls
    verify-settled s e =
        let over = record s { tls = record s.tls { handshake_done = true } } in
        if_holds (λ (r : Shaken × Sys M). settled r.1 ≡ k) (refused env s.tls) (broken, s)
          (done, notify env over connect_event) (λ _. e) (λ _. notify-settled over connect_event e)

    shake-settled :
        (s : Sys M) (r : Answer Bool × M × Option Bio)
        → settled s ≡ k
        → settled (shake env s r).1 ≡ k
    unfolding shake set_tls
    shake-settled s (result ok, m, bio) e = verify-settled _ e
    shake-settled s (want, m, bio) e = e
    shake-settled s (ended, m, bio) e = e
    shake-settled s (failed, m, bio) e = e

    start_clock-rx :
        (t : Tls M) → bytes_of (start_clock env t).rx.pending_pbufs ≡ bytes_of t.rx.pending_pbufs
    unfolding start_clock
    start_clock-rx t =
        if_holds (λ (u : Tls M). bytes_of u.rx.pending_pbufs ≡ bytes_of t.rx.pending_pbufs)
          (t.handshake_start_time == 0) _ _ (λ _. refl) (λ _. refl)

    run-settled : (s : Sys M) → settled s ≡ k → settled (run_ssl_handshake env s).1 ≡ k
    unfolding run_ssl_handshake set_tls
    run-settled s e =
        if_holds (λ (r : Shaken × Sys M). settled r.1 ≡ k) s.tls.has_pcb _ _
          (λ _. shake-settled _ _ (omega (arith, e, start_clock-rx s.tls))) (λ _. e)

    ssl_got-settled :
        (s : Sys M) (r : Answer (List ℕ) × M × Option Bio)
        → settled s ≡ k
        → settled (ssl_got env s r).1 ≡ k
    unfolding ssl_got set_tls
    ssl_got-settled s (result bytes, m, bio) e = e
    ssl_got-settled s (want, m, bio) e = e
    ssl_got-settled s (ended, m, bio) e = e
    ssl_got-settled s (failed, m, bio) e = e

    ssl_read-settled : (s : Sys M) → settled s ≡ k → settled (ssl_read env s).1 ≡ k
    unfolding ssl_read
    ssl_read-settled s e =
        if_holds (λ (r : Option (List ℕ) × Sys M). settled r.1 ≡ k) s.tls.has_pcb _ _
          (λ _. ssl_got-settled s _ e) (λ _. e)

    module _ (loop : Sys M → Stop × Sys M)
        (next : (s : Sys M) → settled s ≡ k → settled (loop s).1 ≡ k) where
      turn-settled :
          (r : Option (List ℕ) × Sys M) → settled r.1 ≡ k → settled (read_turn env loop r).1 ≡ k
      unfolding read_turn
      turn-settled (none, s) e = e
      turn-settled (some [], s) e = e
      turn-settled (some (x ∷ xs), s) e =
          let t = notify env s (data_event (x ∷ xs)) in
          let f = notify-settled s (data_event (x ∷ xs)) e in
          if_holds (λ (r : Stop × Sys M). settled r.1 ≡ k) t.tls.open_pcb (loop t) (left, t)
            (λ _. next t f) (λ _. f)

    loop-settled : (n : ℕ) (s : Sys M) → settled s ≡ k → settled (read_loop env n s).1 ≡ k
    unfolding read_loop
    loop-settled zero s e = e
    loop-settled (suc n) s e =
        turn-settled (λ t. read_loop env n t) (loop-settled n) (ssl_read env s)
          (ssl_read-settled s e)

  credit-settled :
      (s : Sys M) (r : ℕ × Session) (k : ℕ)
      → r.0 + bytes_of r.1.pending_pbufs ≡ bytes_of s.tls.rx.pending_pbufs + k
      → settled (credit env r s).1 ≡ settled s + k
  unfolding credit set_tls
  credit-settled s (fed, rx) k e =
      if_holds (λ (t : Sys M). settled t ≡ settled s + k) (fed == 0) _ _
        (λ none_fed. let z : fed ≡ 0 = ground arith in omega (arith, e, z)) (λ _. omega (arith, e))

  feed-settled :
      (s : Sys M) (pb : List (List ℕ)) → settled (feed env s pb).1 ≡ settled s + bytes_of pb
  unfolding feed
  feed-settled s pb = credit-settled s _ (bytes_of pb) (feed_rx-count env.allocator s.tls.rx pb)

  module _ (k : ℕ) where
    second-settled : (n : ℕ) (r : ℕ × Sys M) → settled r.1 ≡ k → settled (second_pass env n r) ≡ k
    unfolding second_pass
    second-settled n (fed, s) e =
        if_holds (λ (t : Sys M). settled t ≡ k) (fed == 0) _ _ (λ _. e) (λ _. loop-settled k n s e)

    nothing-settled : (s : Sys M) → settled s ≡ k → settled (feed env s []).1 ≡ k
    nothing-settled s e = omega (arith, feed-settled s [], e)

    after_reads-settled :
        (n : ℕ) (r : Stop × Sys M) → settled r.1 ≡ k → settled (after_reads env n r) ≡ k
    unfolding after_reads
    after_reads-settled n (left, s) e = e
    after_reads-settled n (drained, s) e = second-settled n (feed env s []) (nothing-settled s e)
    after_reads-settled n (error_stop, s) e =
        if_holds (λ (t : Sys M). settled t ≡ k) s.tls.open_pcb _ _ (λ _. give_up-settled k s 60 e)
          (λ _. second-settled n (feed env s []) (nothing-settled s e))

    after_handshake-settled :
        (r : Shaken × Sys M) → settled r.1 ≡ k → settled (after_handshake env r) ≡ k
    unfolding after_handshake
    after_handshake-settled (done, s) e = e
    after_handshake-settled (retry, s) e = e
    after_handshake-settled (broken, s) e = give_up-settled k s 60 e

    recv_fed-settled : (n : ℕ) (s : Sys M) → settled s ≡ k → settled (recv_fed env n s) ≡ k
    unfolding recv_fed
    recv_fed-settled n s e =
        if_holds (λ (t : Sys M). settled t ≡ k) (not s.tls.handshake_done) _ _
          (λ _. after_handshake-settled (run_ssl_handshake env s) (run-settled k s e))
          (λ _. after_reads-settled n (read_loop env n s) (loop-settled k n s e))

  -- On ESP32 `onRecv` adds the bytes of a packet, once, to the sum of the bytes of ciphertext
  -- acknowledged and those that the session holds, on every branch. The application's callbacks do
  -- not change that sum.
  pub on_recv-settled :
      (n : ℕ) (s : Sys M) (pb : List (List ℕ))
      → settled (on_recv env n s pb) ≡ settled s + bytes_of pb
  unfolding on_recv set_tls
  on_recv-settled n s [] = omega arith
  on_recv-settled n s (p ∷ ps) =
      let t = record s { tls = record s.tls { last_rx = env.now } } in
      recv_fed-settled (settled s + bytes_of (p ∷ ps)) n (feed env t (p ∷ ps)).1
        (feed-settled t (p ∷ ps))
