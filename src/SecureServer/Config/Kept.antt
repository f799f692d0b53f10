-- ===== src/SecureServer/Config/Kept.antt =====
-- What the server's certificate is after any calls of the application.
use async_tcp.Prelude.{
  ℕ, ◌≡◌, ◌⊎◌, inl, inr, refl, ap, ◌∙◌, Bool, true, false, Option, none, some, List, [], ◌∷◌,
  if_holds, ◌++◌, ◌==◌, ◌||◌,
}
use async_tcp.SecureClient.Start.{Ret, success, is_success}
use async_tcp.SecureServer.Config.{
  Buffer, ServerCtx, Config, Calls, parse_key, parse_cert, ensure_parsed, listening, begin_with,
  begin_secure, pem, begin_secure_pem, begin_secure_password, set_default_certificate,
  set_default_key, Op, begin_pem, begin_raw, default_cert, default_key, apply, run,
}

module _ (c : Calls) where
  ensure_parsed-kept :
      (cert key : Buffer) (password : Option (List ℕ)) (x : ServerCtx)
      → x.parsed ≡ true
      → ensure_parsed c cert key password x ≡ (success, x)
  unfolding ensure_parsed
  ensure_parsed-kept cert key password x e = rw e refl

  begin_with-kept :
      (cert key : Buffer) (s : Config)
      → s.secure_ctx.parsed ≡ true
      → (begin_with c cert key s).1.secure_ctx ≡ s.secure_ctx
  unfolding begin_with listening
  begin_with-kept cert key s e =
      rw (ensure_parsed-kept cert key s.ssl_key_password s.secure_ctx e) refl

  begin_secure-kept :
      (cert key : Option Buffer) (s : Config)
      → s.secure_ctx.parsed ≡ true
      → (begin_secure c cert key s).1.secure_ctx ≡ s.secure_ctx
  unfolding begin_secure
  begin_secure-kept (some cert) (some key) s e = begin_with-kept cert key s e
  begin_secure-kept (some cert) none s e = refl
  begin_secure-kept none key s e = refl

  apply-kept :
      (op : Op) (s : Config) → s.secure_ctx.parsed ≡ true → (apply c op s).secure_ctx ≡ s.secure_ctx
  unfolding apply begin_secure_password begin_secure_pem set_default_certificate set_default_key
  apply-kept (begin_pem cert key password) s e =
      begin_secure-kept (pem c cert) (pem c key) (record s { ssl_key_password = password }) e
  apply-kept (begin_raw cert key) s e = begin_secure-kept cert key s e
  apply-kept (default_cert cert) s e = refl
  apply-kept (default_key key) s e = refl

  -- Once a TLS server of ESP32 has read its certificate and key, no calls of `beginSecure`,
  -- `setDefaultCertificate` and `setDefaultKey` change the ones that it has read.
  pub run-kept :
      (ops : List Op) (s : Config)
      → s.secure_ctx.parsed ≡ true
      → (run c ops s).secure_ctx ≡ s.secure_ctx
  unfolding run
  run-kept [] s e = refl
  run-kept (op ∷ ops) s e =
      let same = apply-kept op s e in
      run-kept ops (apply c op s) (ap (λ (x : ServerCtx). x.parsed) same ∙ e) ∙ same

  -- Serving needs a certificate and a key that were read.
  abbrev pub IsSound : Config → Type 0
  IsSound s = (s.use_ssl ≡ false) ⊎ (s.secure_ctx.parsed ≡ true)

  -- A certificate and a key that were read stay so, and an answer of 0 says that they were.
  abbrev Answers : Bool → Ret × ServerCtx → Type 0
  Answers before (r, x) =
      (is_success r ≡ true → x.parsed ≡ true) × (before ≡ true → x.parsed ≡ true)

  parse_key-Answers :
      (key : Buffer) (password : Option (List ℕ)) (x : ServerCtx)
      → Answers x.parsed (parse_key c key password x)
  unfolding parse_key
  parse_key-Answers key password x =
      let r = c.parse_private_key key password in
      if_holds (Answers x.parsed) (is_success r) _ _ (λ _. ((λ _. refl), (λ _. refl)))
        (λ e. ((λ f. cc), (λ p. p)))

  parse_cert-Answers :
      (cert key : Buffer) (password : Option (List ℕ)) (x : ServerCtx)
      → Answers x.parsed (parse_cert c cert key password x)
  unfolding parse_cert
  parse_cert-Answers cert key password x =
      let r = c.crt_parse cert in
      let y = record x { cert = x.cert ++ r.1 } in
      if_holds (Answers x.parsed) (is_success r.0) _ _ (λ _. parse_key-Answers key password y)
        (λ e. ((λ f. cc), (λ p. p)))

  ensure_parsed-Answers :
      (cert key : Buffer) (password : Option (List ℕ)) (x : ServerCtx)
      → Answers x.parsed (ensure_parsed c cert key password x)
  unfolding ensure_parsed
  ensure_parsed-Answers cert key password x =
      if_holds (Answers x.parsed) x.parsed _ _ (λ e. ((λ _. e), (λ _. e)))
        (λ _.
          if_holds (Answers x.parsed) ((cert.len == 0) || (key.len == 0)) _ _
            (λ _. ((λ f. cc), (λ p. p))) (λ _. parse_cert-Answers cert key password x))

  listening-IsSound :
      (r : Ret × ServerCtx) (s : Config)
      → IsSound s
      → Answers s.secure_ctx.parsed r
      → IsSound (listening c r s).1
  unfolding listening
  listening-IsSound r s h a =
      if_holds (λ (t : Bool × Config). IsSound t.1) (is_success r.0) _ _ (λ e. inr (a.0 e))
        (λ _. elim h [ inl off ↦ inl off | inr on ↦ inr (a.1 on) ])

  begin_secure-IsSound :
      (cert key : Option Buffer) (s : Config) → IsSound s → IsSound (begin_secure c cert key s).1
  unfolding begin_secure begin_with
  begin_secure-IsSound (some cert) (some key) s h =
      listening-IsSound (ensure_parsed c cert key s.ssl_key_password s.secure_ctx)
        (record s { cert = some cert; key = some key }) h
        (ensure_parsed-Answers cert key s.ssl_key_password s.secure_ctx)
  begin_secure-IsSound (some cert) none s h = h
  begin_secure-IsSound none key s h = h

  apply-IsSound : (op : Op) (s : Config) → IsSound s → IsSound (apply c op s)
  unfolding apply begin_secure_password begin_secure_pem set_default_certificate set_default_key
  apply-IsSound (begin_pem cert key password) s h =
      begin_secure-IsSound (pem c cert) (pem c key) (record s { ssl_key_password = password }) h
  apply-IsSound (begin_raw cert key) s h = begin_secure-IsSound cert key s h
  apply-IsSound (default_cert cert) s h = h
  apply-IsSound (default_key key) s h = h

  -- From a TLS server of ESP32 that uses TLS only with a certificate and a key that were read,
  -- this holds after any calls of `beginSecure`, `setDefaultCertificate` and `setDefaultKey`,
  -- whatever mbedTLS and lwIP answer.
  pub run-IsSound : (ops : List Op) (s : Config) → IsSound s → IsSound (run c ops s)
  unfolding run
  run-IsSound [] s h = h
  run-IsSound (op ∷ ops) s h = run-IsSound ops (apply c op s) (apply-IsSound op s h)
