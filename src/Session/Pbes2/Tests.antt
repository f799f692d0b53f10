-- ===== src/Session/Pbes2/Tests.antt =====
-- A key that was encrypted, at concrete bytes.
use async_tcp.Prelude.{
  ℕ, suc, ◌-◌, ◌+◌, ◌∙◌, ltb, ap, ◌++◌, length, take, ◌≡◌, refl, arith, List, [], ◌∷◌, replicate,
}
use async_tcp.Session.Pbes2.{ok, Crypto, brssl_pbes2_decrypt}
use async_tcp.Session.Pbes2.Envelope.{der_null, envelope}
use async_tcp.Session.Pbes2.RoundTrip.{IsCipherOf, encrypted, brssl_pbes2_decrypt-encrypted}

raised : List ℕ → List ℕ
raised [] = []
raised (x ∷ xs) = (x + 1) ∷ raised xs

abbrev pub lowered : List ℕ → List ℕ
lowered [] = []
lowered (x ∷ xs) = (x - 1) ∷ lowered xs

lowered-raised : (xs : List ℕ) → lowered (raised xs) ≡ xs
unfolding raised
lowered-raised [] = refl
lowered-raised (x ∷ xs) =
    ap (λ t. (x + 1 - 1) ∷ t) (lowered-raised xs) ∙ ap (λ y. y ∷ xs) (omega arith)

length-raised : (xs : List ℕ) → length (raised xs) ≡ length xs
unfolding raised
length-raised [] = refl
length-raised (x ∷ xs) = ap suc (length-raised xs)

-- An HMAC of the right length, and a cipher that raises every byte.
abbrev pub toy_crypto : Crypto
toy_crypto = record {
  hmac = λ key message. take 32 (key ++ (message ++ replicate 32 7));
  aes_cbcdec = λ key iv bytes. lowered bytes;
  malloc = λ n. ltb n 65536;
}

abbrev toy_cipher : List ℕ → List ℕ → List ℕ → List ℕ
toy_cipher key iv bytes = raised bytes

toy_cipher-IsCipherOf : IsCipherOf toy_crypto toy_cipher
toy_cipher-IsCipherOf = record {
  undone = λ dk iv bytes p. lowered-raised bytes;
  same_length = λ dk iv bytes. length-raised bytes;
}

abbrev secret : List ℕ
secret = 48 ∷ 5 ∷ 2 ∷ 1 ∷ 0 ∷ 4 ∷ 0 ∷ []

abbrev password : List ℕ
password = 112 ∷ 119 ∷ []

abbrev salt : List ℕ
salt = 1 ∷ 2 ∷ 3 ∷ 4 ∷ []

-- 2 iterations, written in 2 bytes.
abbrev count : List ℕ
count = 0 ∷ 2 ∷ []

brssl_pbes2_decrypt-encrypted_example :
    brssl_pbes2_decrypt toy_crypto
      (envelope der_null salt count
        (replicate 16 9)
        (encrypted toy_crypto toy_cipher password salt count (replicate 16 9) secret 9))
      password
    ≡ ok secret
unfolding raised
brssl_pbes2_decrypt-encrypted_example =
    brssl_pbes2_decrypt-encrypted toy_crypto toy_cipher toy_cipher-IsCipherOf der_null password salt
      count (replicate 16 9) secret 9 (omega arith) (omega arith) (omega arith) (omega arith) refl
      (omega arith) (omega arith) (omega arith) refl (omega arith) refl
