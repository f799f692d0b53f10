-- ===== src/Session/Insecure/Trusted.antt =====
-- What a validator accepts.
use async_tcp.Prelude.{
  ℕ, ◌≡◌, ◌↔◌, refl, sym, ap, ◌∙◌, Bool, true, false, not, Option, none, some, List, [], ◌∷◌, ◌++◌,
  arith, if◌then◌else◌, append_assoc, append-nil, if_true, if_false,
}
use async_tcp.Session.Insecure.{
  Bearssl, Context, trusted, no_certificate, same_bytes, br_x509_insecure_init,
  insecure_start_chain, insecure_append, insecure_end_cert, fingerprint_fails, insecure_end_chain,
  appends, certificates, validate,
}

same_bytes_iff : (xs ys : List ℕ) → (same_bytes xs ys ≡ true) ↔ (xs ≡ ys)
unfolding same_bytes
same_bytes_iff [] [] = ((λ e. refl), (λ e. refl))
same_bytes_iff [] (y ∷ ys) = ((λ e. cc), (λ e. cc))
same_bytes_iff (x ∷ xs) [] = ((λ e. cc), (λ e. cc))
same_bytes_iff (x ∷ xs) (y ∷ ys) = ground (arith, same_bytes_iff xs ys)

abbrev pub concat : List (List ℕ) → List ℕ
concat [] = []
concat (p ∷ ps) = p ++ concat ps

module _ {D : Type 0} (b : Bearssl D) where
  -- The names that the decoder tells of a certificate.
  abbrev pub subject_of : D → List (List ℕ) → List ℕ
  subject_of d [] = []
  subject_of d (buf ∷ bufs) = (b.decoder_push d buf).1 ++ subject_of (b.decoder_push d buf).0 bufs

  abbrev pub issuer_of : D → List (List ℕ) → List ℕ
  issuer_of d [] = []
  issuer_of d (buf ∷ bufs) = (b.decoder_push d buf).2 ++ issuer_of (b.decoder_push d buf).0 bufs

  insecure_append-early :
      (buf : List ℕ) (x : Context D)
      → x.done_cert ≡ false
      → insecure_append b buf x ≡ (record x {
        decoder = (b.decoder_push x.decoder buf).0;
        sha1_cert = x.sha1_cert ++ buf;
        sha256_subject = x.sha256_subject ++ (b.decoder_push x.decoder buf).1;
        sha256_issuer = x.sha256_issuer ++ (b.decoder_push x.decoder buf).2;
      })
  unfolding insecure_append
  insecure_append-early buf x e = if_true (not x.done_cert) _ x (ap not e)

  abbrev decoder_after : D → List (List ℕ) → D
  decoder_after d [] = d
  decoder_after d (buf ∷ bufs) = decoder_after (b.decoder_push d buf).0 bufs

  -- What the validator keeps of a certificate.
  abbrev kept : Context D → List (List ℕ) → Context D
  kept x bufs = record x {
    decoder = decoder_after x.decoder bufs;
    sha1_cert = x.sha1_cert ++ concat bufs;
    sha256_subject = x.sha256_subject ++ subject_of x.decoder bufs;
    sha256_issuer = x.sha256_issuer ++ issuer_of x.decoder bufs;
  }

  appends-kept :
      (bufs : List (List ℕ)) (x : Context D) → x.done_cert ≡ false → appends b bufs x ≡ kept x bufs
  unfolding appends
  appends-kept [] x e = λ i. record x {
    sha1_cert = sym (append-nil x.sha1_cert) i;
    sha256_subject = sym (append-nil x.sha256_subject) i;
    sha256_issuer = sym (append-nil x.sha256_issuer) i;
  }
  appends-kept (buf ∷ bufs) x e =
      let (d, subject, issuer) = b.decoder_push x.decoder buf in
      let y = record x {
        decoder = d;
        sha1_cert = x.sha1_cert ++ buf;
        sha256_subject = x.sha256_subject ++ subject;
        sha256_issuer = x.sha256_issuer ++ issuer;
      } in
      let joined : kept y bufs ≡ kept x (buf ∷ bufs) = λ i. record x {
        decoder = decoder_after d bufs;
        sha1_cert = append_assoc x.sha1_cert buf (concat bufs) i;
        sha256_subject = append_assoc x.sha256_subject subject (subject_of d bufs) i;
        sha256_issuer = append_assoc x.sha256_issuer issuer (issuer_of d bufs) i;
      } in
      ap (appends b bufs) (insecure_append-early buf x e) ∙ appends-kept bufs y e ∙ joined

  -- After the first certificate nothing changes.
  insecure_append-done :
      (buf : List ℕ) (x : Context D) → x.done_cert ≡ true → insecure_append b buf x ≡ x
  unfolding insecure_append
  insecure_append-done buf x e = if_false (not x.done_cert) _ x (ap not e)

  appends-done : (bufs : List (List ℕ)) (x : Context D) → x.done_cert ≡ true → appends b bufs x ≡ x
  unfolding appends
  appends-done [] x e = refl
  appends-done (buf ∷ bufs) x e =
      ap (appends b bufs) (insecure_append-done buf x e) ∙ appends-done bufs x e

  end_cert-done : (x : Context D) → x.done_cert ≡ true → insecure_end_cert b x ≡ x
  unfolding insecure_end_cert
  end_cert-done x e = λ i. record x { done_cert = sym e i }

  certificates-done :
      (certs : List (List (List ℕ))) (x : Context D)
      → x.done_cert ≡ true
      → certificates b certs x ≡ x
  unfolding certificates
  certificates-done [] x e = refl
  certificates-done (cert ∷ certs) x e =
      ap (λ y. certificates b certs (insecure_end_cert b y)) (appends-done cert x e)
      ∙ ap (certificates b certs) (end_cert-done x e)
      ∙ certificates-done certs x e

  -- What the fingerprint asks of the bytes of the certificate.
  abbrev pub Fits : Option (List ℕ) → List ℕ → Type 0
  Fits none bytes = Unit {0}
  Fits (some fingerprint) bytes = b.sha1 bytes ≡ fingerprint

  -- The certificate is the one asked for, and is signed by itself where that is asked for.
  abbrev pub IsAccepted : Option (List ℕ) → Bool → List (List ℕ) → Type 0
  IsAccepted fingerprint self cert =
      Fits fingerprint (concat cert)
      × (self ≡ true
          → b.sha256 (subject_of b.decoder_init cert) ≡ b.sha256 (issuer_of b.decoder_init cert))

  judged :
      (d : D) (bytes subject issuer : List ℕ) (fingerprint : Option (List ℕ)) (self : Bool)
      → (insecure_end_chain b (record {
        decoder = d;
        done_cert = true;
        sha1_cert = bytes;
        sha256_subject = subject;
        sha256_issuer = issuer;
        match_fingerprint = fingerprint;
        allow_self_signed = self;
      })
          ≡ trusted)
        ↔ (Fits fingerprint bytes × (self ≡ true → b.sha256 subject ≡ b.sha256 issuer))
  unfolding insecure_end_chain fingerprint_fails
  judged d bytes subject issuer none true =
      ground (arith, same_bytes_iff (b.sha256 subject) (b.sha256 issuer))
  judged d bytes subject issuer none false = ground arith
  judged d bytes subject issuer (some fingerprint) true = ground (
    arith,
    same_bytes_iff (b.sha256 subject) (b.sha256 issuer),
    same_bytes_iff (b.sha1 bytes) fingerprint,
  )
  judged d bytes subject issuer (some fingerprint) false =
      ground (arith, same_bytes_iff (b.sha1 bytes) fingerprint)

  -- On ESP8266 the validator accepts a chain that is not empty just when the fingerprint, where
  -- one is used and given, is the SHA-1 hash of the first certificate's bytes and, where
  -- self-signed certificates are allowed, the names of its subject and its issuer have the same
  -- SHA-256 hash; the pieces in which it arrives and the certificates behind it make no
  -- difference.
  pub validate-trusted :
      (use_fingerprint : Bool) (fingerprint : Option (List ℕ)) (self : Bool) (cert : List (List ℕ))
      (certs : List (List (List ℕ)))
      → (validate b (cert ∷ certs) (br_x509_insecure_init b use_fingerprint fingerprint self)
          ≡ trusted)
        ↔ IsAccepted (if use_fingerprint then fingerprint else none) self cert
  unfolding validate certificates insecure_start_chain br_x509_insecure_init insecure_end_cert
  validate-trusted use_fingerprint fingerprint self cert certs =
      let x = insecure_start_chain b (br_x509_insecure_init b use_fingerprint fingerprint self) in
      let y = record (kept x cert) { done_cert = true } in
      let seen : certificates b (cert ∷ certs) x ≡ y =
        ap (λ z. certificates b certs (insecure_end_cert b z)) (appends-kept cert x refl)
        ∙ certificates-done certs y refl in
      rw (ap (insecure_end_chain b) seen) (
        judged (decoder_after b.decoder_init cert) (concat cert) (subject_of b.decoder_init cert)
          (issuer_of b.decoder_init cert) (if use_fingerprint then fingerprint else none) self)

  pub validate-empty : (x : Context D) → validate b [] x ≡ no_certificate
  unfolding validate certificates insecure_start_chain insecure_end_chain
  validate-empty x = refl
