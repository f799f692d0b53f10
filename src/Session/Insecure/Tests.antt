-- ===== src/Session/Insecure/Tests.antt =====
-- The validator on a concrete chain.
use async_tcp.Prelude.{ℕ, zero, suc, ◌≡◌, ◌↔◌, true, some, List, [], ◌∷◌}
use async_tcp.Session.Insecure.{Bearssl, trusted, br_x509_insecure_init, validate}
use async_tcp.Session.Insecure.Trusted.{IsAccepted, validate-trusted}

told : ℕ → List ℕ → ℕ × List ℕ × List ℕ
told zero buf = (1, buf, [])
told (suc n) buf = (suc (suc n), [], buf)

-- Hashes that mark their input, and a decoder that tells the first piece as the subject and the
-- others as the issuer.
abbrev toy : Bearssl ℕ
toy = record {
  sha1 = λ bytes. 1 ∷ bytes;
  sha256 = λ bytes. 2 ∷ bytes;
  decoder_init = 0;
  decoder_push = told;
}

validate-trusted_example :
    (validate toy
        (((5 ∷ 6 ∷ []) ∷ (5 ∷ 6 ∷ []) ∷ []) ∷ ((9 ∷ []) ∷ []) ∷ [])
        (br_x509_insecure_init toy true (some (1 ∷ 5 ∷ 6 ∷ 5 ∷ 6 ∷ [])) true)
      ≡ trusted)
    ↔ IsAccepted toy (some (1 ∷ 5 ∷ 6 ∷ 5 ∷ 6 ∷ [])) true ((5 ∷ 6 ∷ []) ∷ (5 ∷ 6 ∷ []) ∷ [])
validate-trusted_example =
    validate-trusted toy true (some (1 ∷ 5 ∷ 6 ∷ 5 ∷ 6 ∷ [])) true
      ((5 ∷ 6 ∷ []) ∷ (5 ∷ 6 ∷ []) ∷ []) (((9 ∷ []) ∷ []) ∷ [])
