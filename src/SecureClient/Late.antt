-- ===== src/SecureClient/Late.antt =====
-- What `onRecv` delivers on ESP32 before the handshake is over.
use async_tcp.Prelude.{
  ℕ, ◌≡◌, refl, ap, ◌∙◌, Bool, true, false, not, Option, List, [], ◌∷◌, ◌==◌, if_holds, if_true,
}
use async_tcp.Session.Rx.{Bio, Session, feed_rx}
use async_tcp.SecureClient.{
  Answer, result, want, ended, failed, Note, connect_event, error, Sys, Env, notify, set_tls,
  close_client, give_up, Shaken, done, retry, broken, refused, verify, shake, run_ssl_handshake,
  credit, feed, after_handshake, recv_fed, on_recv,
}
use async_tcp.SecureClient.Recv.{delivered, IsQuiet}

module _ {M : Type 0} (env : Env M) (quiet : IsQuiet env) where
  notify-delivered :
      (s : Sys M) (n : Note)
      → delivered (n ∷ s.log) ≡ delivered s.log
      → delivered (notify env s n).log ≡ delivered s.log
  unfolding notify
  notify-delivered s n e = quiet.delivers n (record s { log = n ∷ s.log }) ∙ e

  give_up-delivered : (s : Sys M) (code : ℕ) → delivered (give_up env s code).log ≡ delivered s.log
  unfolding give_up close_client
  give_up-delivered s code = notify-delivered s (error code) refl

  verify-delivered : (s : Sys M) → delivered (verify env s).1.log ≡ delivered s.log
  unfolding verify set_tls
  verify-delivered s =
      let over = record s { tls = record s.tls { handshake_done = true } } in
      if_holds (λ (r : Shaken × Sys M). delivered r.1.log ≡ delivered s.log) (refused env s.tls)
        (broken, s) (done, notify env over connect_event) (λ _. refl)
        (λ _. notify-delivered over connect_event refl)

  shake-delivered :
      (s : Sys M) (r : Answer Bool × M × Option Bio)
      → delivered (shake env s r).1.log ≡ delivered s.log
  unfolding shake set_tls
  shake-delivered s (result ok, m, bio) = verify-delivered _
  shake-delivered s (want, m, bio) = refl
  shake-delivered s (ended, m, bio) = refl
  shake-delivered s (failed, m, bio) = refl

  run-delivered : (s : Sys M) → delivered (run_ssl_handshake env s).1.log ≡ delivered s.log
  unfolding run_ssl_handshake set_tls
  run-delivered s =
      if_holds (λ (r : Shaken × Sys M). delivered r.1.log ≡ delivered s.log) s.tls.has_pcb _ _
        (λ _. shake-delivered _ _) (λ _. refl)

  after_handshake-delivered :
      (r : Shaken × Sys M) → delivered (after_handshake env r).log ≡ delivered r.1.log
  unfolding after_handshake
  after_handshake-delivered (done, s) = refl
  after_handshake-delivered (retry, s) = refl
  after_handshake-delivered (broken, s) = give_up-delivered s 60

  credit-same :
      (s : Sys M) (r : ℕ × Session)
      → (delivered (credit env r s).1.log ≡ delivered s.log)
        × ((credit env r s).1.tls.handshake_done ≡ s.tls.handshake_done)
  unfolding credit set_tls
  credit-same s (fed, rx) =
      if_holds
        (λ (t : Sys M).
          (delivered t.log ≡ delivered s.log) × (t.tls.handshake_done ≡ s.tls.handshake_done))
        (fed == 0) _ _ (λ _. (refl, refl)) (λ _. (refl, refl))

  -- On ESP32 a packet that arrives before the handshake is over delivers nothing to the
  -- application, even when it completes the handshake, where the application's callbacks deliver
  -- nothing themselves.
  pub on_recv-delivered :
      (n : ℕ) (s : Sys M) (pb : List (List ℕ))
      → s.tls.handshake_done ≡ false
      → delivered (on_recv env n s pb).log ≡ delivered s.log
  unfolding on_recv recv_fed feed set_tls
  on_recv-delivered n s [] early = refl
  on_recv-delivered n s (p ∷ ps) early =
      let t = record s { tls = record s.tls { last_rx = env.now } } in
      let u = (feed env t (p ∷ ps)).1 in
      let same = credit-same t (feed_rx env.allocator t.tls.rx (p ∷ ps)) in
      ap (λ v. delivered v.log)
        (if_true (not u.tls.handshake_done) (after_handshake env (run_ssl_handshake env u)) _
          (ap not (same.1 ∙ early)))
      ∙ after_handshake-delivered (run_ssl_handshake env u)
      ∙ run-delivered u
      ∙ same.0
