-- ===== src/Session/Insecure.antt =====
-- The certificate validator of a client on ESP8266, `insecure_*` and `br_x509_insecure_init` of
-- src/AsyncSecureSession.cpp. BearSSL's hashes and its decoder of certificates are parameters; a
-- running hash is the list of the bytes it was given.
pub mod Trusted
mod Tests
use async_tcp.Prelude.{
  ℕ, Bool, true, false, not, ◌&&◌, Option, none, some, List, [], ◌∷◌, ◌++◌, ◌==◌, if◌then◌else◌,
  take,
}

-- SHA-1 and SHA-256, and the decoder, which tells the bytes of the names of the subject and of the
-- issuer as it meets them.
pub record Bearssl (D : Type 0) : Type 0 where
  pub sha1 : List ℕ → List ℕ
  pub sha256 : List ℕ → List ℕ
  pub decoder_init : D
  pub decoder_push : D → List ℕ → D × List ℕ × List ℕ

-- `x509_insecure_context`
pub record Context (D : Type 0) : Type 0 where
  pub decoder : D
  pub done_cert : Bool
  pub sha1_cert : List ℕ
  pub sha256_subject : List ℕ
  pub sha256_issuer : List ℕ
  pub match_fingerprint : Option (List ℕ)
  pub allow_self_signed : Bool

-- What the validator answers: 0, 1 for no certificate, or BR_ERR_X509_NOT_TRUSTED.
pub data Verdict : Type 0 where
  trusted no_certificate not_trusted : Verdict

-- memcmp is 0
unfoldable pub same_bytes : List ℕ → List ℕ → Bool
same_bytes [] [] = true
same_bytes [] (y ∷ ys) = false
same_bytes (x ∷ xs) [] = false
same_bytes (x ∷ xs) (y ∷ ys) = (x == y) && same_bytes xs ys

module _ {D : Type 0} (b : Bearssl D) where
  -- `br_x509_insecure_init`, with none for a null fingerprint.
  unfoldable pub br_x509_insecure_init : Bool → Option (List ℕ) → Bool → Context D
  br_x509_insecure_init use_fingerprint fingerprint allow_self_signed = record {
    decoder = b.decoder_init;
    done_cert = false;
    sha1_cert = [];
    sha256_subject = [];
    sha256_issuer = [];
    match_fingerprint = if use_fingerprint then fingerprint else none;
    allow_self_signed = allow_self_signed;
  }

  unfoldable pub insecure_start_chain : Context D → Context D
  insecure_start_chain x = record x {
    decoder = b.decoder_init;
    done_cert = false;
    sha1_cert = [];
    sha256_subject = [];
    sha256_issuer = [];
  }

  -- The decoder's two callbacks add to the hashes of the names.
  unfoldable pub insecure_append : List ℕ → Context D → Context D
  insecure_append buf x =
      let (d, subject, issuer) = b.decoder_push x.decoder buf in
      if not x.done_cert
      then (record x {
        decoder = d;
        sha1_cert = x.sha1_cert ++ buf;
        sha256_subject = x.sha256_subject ++ subject;
        sha256_issuer = x.sha256_issuer ++ issuer;
      })
      else x

  unfoldable pub insecure_end_cert : Context D → Context D
  insecure_end_cert x = record x { done_cert = true }

  unfoldable pub fingerprint_fails : Option (List ℕ) → List ℕ → Bool
  fingerprint_fails none bytes = false
  fingerprint_fails (some fingerprint) bytes = not (same_bytes (b.sha1 bytes) fingerprint)

  unfoldable pub insecure_end_chain : Context D → Verdict
  insecure_end_chain x =
      if not x.done_cert
      then no_certificate
      else (if fingerprint_fails x.match_fingerprint x.sha1_cert
          then not_trusted
          else (if x.allow_self_signed
                && not (same_bytes (b.sha256 x.sha256_subject) (b.sha256 x.sha256_issuer))
              then not_trusted
              else trusted))

  -- The calls of BearSSL for a certificate, which arrives in pieces, and for a chain.
  unfoldable pub appends : List (List ℕ) → Context D → Context D
  appends [] x = x
  appends (buf ∷ bufs) x = appends bufs (insecure_append buf x)

  unfoldable pub certificates : List (List (List ℕ)) → Context D → Context D
  certificates [] x = x
  certificates (cert ∷ certs) x = certificates certs (insecure_end_cert (appends cert x))

  unfoldable pub validate : List (List (List ℕ)) → Context D → Verdict
  validate certs x = insecure_end_chain (certificates certs (insecure_start_chain x))
