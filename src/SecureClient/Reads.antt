-- ===== src/SecureClient/Reads.antt =====
-- The reads of `onRecv` end on ESP32.
use async_tcp.Prelude.{
  ℕ, zero, suc, ◌≤◌, ◌<◌, ◌≡◌, refl, ap, Option, none, some, List, [], ◌∷◌, arith, if◌then◌else◌,
  if_holds,
}
use async_tcp.Session.Rx.{Bio}
use async_tcp.SecureClient.{
  Answer, result, want, ended, failed, Note, data_event, Sys, Env, notify, set_tls, ssl_got,
  ssl_read, Stop, left, read_turn, read_loop,
}

-- mbedTLS reads from what it holds and from the receive buffer, which `buffered` measures: every
-- read that gives bytes leaves less. Callbacks of the application receive nothing.
pub record IsFinite {M : Type 0} (env : Env M) (buffered : M → Option Bio → ℕ) : Type 0 where
  pub reads :
      (m m' : M) (bio bio' : Option Bio) (n x : ℕ) (xs : List ℕ)
      → env.mbedtls.ssl_read m bio n ≡ (result (x ∷ xs), m', bio')
      → buffered m' bio' < buffered m bio
  pub callbacks :
      (n : Note) (s : Sys M)
      → buffered (env.app n s).tls.ssl_ctx (env.app n s).tls.rx.bio
        ≡ buffered s.tls.ssl_ctx s.tls.rx.bio

module _ {M : Type 0} (env : Env M) (buffered : M → Option Bio → ℕ)
    (finite : IsFinite env buffered) where
  abbrev pub level : Sys M → ℕ
  level s = buffered s.tls.ssl_ctx s.tls.rx.bio

  abbrev Less : Sys M → Option (List ℕ) × Sys M → Type 0
  Less s (none, t) = 0 ≤ 0
  Less s (some [], t) = 0 ≤ 0
  Less s (some (x ∷ xs), t) = level t < level s

  got-Less :
      (s : Sys M) (r : Answer (List ℕ) × M × Option Bio)
      → env.mbedtls.ssl_read s.tls.ssl_ctx s.tls.rx.bio 1024 ≡ r
      → Less s (ssl_got env s r)
  unfolding ssl_got set_tls
  got-Less s (result [], m, bio) e = omega arith
  got-Less s (result (x ∷ xs), m, bio) e = finite.reads s.tls.ssl_ctx m s.tls.rx.bio bio 1024 x xs e
  got-Less s (want, m, bio) e = omega arith
  got-Less s (ended, m, bio) e = omega arith
  got-Less s (failed, m, bio) e = omega arith

  read-Less : (s : Sys M) → Less s (ssl_read env s)
  unfolding ssl_read
  read-Less s =
      let got = ssl_got env s (env.mbedtls.ssl_read s.tls.ssl_ctx s.tls.rx.bio 1024) in
      if_holds (Less s) s.tls.has_pcb got (none, s) (λ _. got-Less s _ refl) (λ _. omega arith)

  notify-level : (s : Sys M) (n : Note) → level (notify env s n) ≡ level s
  unfolding notify
  notify-level s n = finite.callbacks n (record s { log = n ∷ s.log })

  turn-same :
      (f g : Sys M → Stop × Sys M) (s : Sys M) (r : Option (List ℕ) × Sys M)
      → Less s r
      → ((t : Sys M) → level t < level s → f t ≡ g t)
      → read_turn env f r ≡ read_turn env g r
  unfolding read_turn
  turn-same f g s (none, t) less same = refl
  turn-same f g s (some [], t) less same = refl
  turn-same f g s (some (x ∷ xs), t) less same =
      let u = notify env t (data_event (x ∷ xs)) in
      ap (λ (r : Stop × Sys M). if u.tls.open_pcb then r else (left, u))
        (same u (omega (arith, notify-level t (data_event (x ∷ xs)))))

  -- The loop of reads in `onRecv` on ESP32 needs no more fuel than what mbedTLS has to read, in
  -- any measure that each read with bytes lowers and the application's callbacks keep: beyond it,
  -- more fuel changes nothing.
  pub read_loop-suc :
      (n : ℕ) (s : Sys M) → level s < n → read_loop env n s ≡ read_loop env (suc n) s
  unfolding read_loop
  read_loop-suc zero s h = absurd (omega arith)
  read_loop-suc (suc n) s h =
      turn-same (λ t. read_loop env n t) (λ t. read_loop env (suc n) t) s (ssl_read env s)
        (read-Less s) (λ t less. read_loop-suc n t (omega arith))
