-- ===== src/Session/Pbes2.antt =====
-- `brssl_pbes2_decrypt` of src/AsyncSecureSession.cpp (ESP8266), with `brssl_oid_match`,
-- `brssl_pbkdf2` and `brssl_cbc_decrypt`. BearSSL's HMAC and AES, and malloc, are parameters.
pub mod Envelope
pub mod RoundTrip
pub mod Tests
use Prim.Native.Nat.{bit_xor}
use async_tcp.Prelude.{
  ℕ, zero, suc, ◌+◌, ◌-◌, ◌*◌, ◌/◌, ◌%◌, ◌^◌, Bool, true, false, not, ◌&&◌, ◌||◌, Option, none,
  some, List, [], ◌∷◌, ◌++◌, ◌==◌, ltb, leb, if◌then◌else◌, length, take, drop, min,
}
use async_tcp.Session.Der.{Element, big_endian, brssl_der_take, brssl_der_peek_tag}
use async_tcp.Session.Pkcs7.{brssl_strip_pkcs7}

-- The reasons in `err`.
pub data Reason : Type 0 where
  empty_password not_a_sequence missing_algorithm_seq missing_algorithm_oid unsupported_algorithm :
      Reason
  missing_params missing_kdf unsupported_kdf params_omitted bad_params bad_salt bad_count : Reason
  bad_key_length bad_prf_seq unsupported_prf missing_cipher_seq missing_cipher_oid : Reason
  unsupported_cipher missing_iv iv_length missing_data pbkdf2_failed oom cbc_failed bad_padding :
      Reason

pub data Result (A : Type 0) : Type 0 where
  ok : A → Result A
  err : Reason → Result A

unfoldable pub bind : {A B : Type 0} → Result A → (A → Result B) → Result B
bind (ok a) f = f a
bind (err why) f = err why

unfoldable pub brssl_oid_match : List ℕ → List ℕ → Bool
brssl_oid_match [] [] = true
brssl_oid_match [] (y ∷ ys) = false
brssl_oid_match (x ∷ xs) [] = false
brssl_oid_match (x ∷ xs) (y ∷ ys) =
    let rest = brssl_oid_match xs ys in if x == y then rest else false

abbrev pub oid_pbes2 : List ℕ
oid_pbes2 = 42 ∷ 134 ∷ 72 ∷ 134 ∷ 247 ∷ 13 ∷ 1 ∷ 5 ∷ 13 ∷ []

abbrev pub oid_pbkdf2 : List ℕ
oid_pbkdf2 = 42 ∷ 134 ∷ 72 ∷ 134 ∷ 247 ∷ 13 ∷ 1 ∷ 5 ∷ 12 ∷ []

abbrev pub oid_hmac_sha256 : List ℕ
oid_hmac_sha256 = 42 ∷ 134 ∷ 72 ∷ 134 ∷ 247 ∷ 13 ∷ 2 ∷ 9 ∷ []

abbrev pub oid_aes256_cbc : List ℕ
oid_aes256_cbc = 96 ∷ 134 ∷ 72 ∷ 1 ∷ 101 ∷ 3 ∷ 4 ∷ 1 ∷ 42 ∷ []

unfoldable pub check_tag : ℕ → Reason → Option Element → Result Element
check_tag tag why none = err why
check_tag tag why (some e) = if e.tag == tag then ok e else err why

-- `!brssl_der_take(..) || tag != t`
unfoldable pub take_tagged : List ℕ → ℕ → Reason → Result Element
take_tagged d tag why = check_tag tag why (brssl_der_take d)

unfoldable pub expect : {A : Type 0} → Bool → Reason → Result A → Result A
expect true why r = r
expect false why r = err why

-- The optional key length.
unfoldable pub skip_key_length : List ℕ → Result (List ℕ)
skip_key_length d =
    if brssl_der_peek_tag d == 2
    then bind (take_tagged d 2 bad_key_length) (λ e. ok e.rest)
    else ok d

-- The PRF, which has to be HMAC with SHA-256.
unfoldable pub check_prf : List ℕ → Result Bool
check_prf d =
    if brssl_der_peek_tag d == 48
    then bind (take_tagged d 48 bad_prf_seq) (λ prf.
      bind (take_tagged prf.value 6 unsupported_prf)
        (λ oid. expect (brssl_oid_match oid.value oid_hmac_sha256) unsupported_prf (ok true)))
    else err unsupported_prf

-- The salt and the bytes of the iteration count.
unfoldable pub kdf_params : List ℕ → Result (List ℕ × List ℕ)
kdf_params d =
    if brssl_der_peek_tag d == 48
    then bind (take_tagged d 48 bad_params) (λ kp. bind (take_tagged kp.value 4 bad_salt) (λ salt.
      bind (take_tagged salt.rest 2 bad_count) (λ count.
        expect (not ((length count.value == 0) || ltb 4 (length count.value))) bad_count (
          bind (skip_key_length count.rest)
            (λ d'. bind (check_prf d') (λ _. ok (salt.value, count.value)))))))
    else err params_omitted

unfoldable pub iv_of : List ℕ → Result (List ℕ)
iv_of d = bind (take_tagged d 6 missing_cipher_oid) (λ oid.
    expect (brssl_oid_match oid.value oid_aes256_cbc) unsupported_cipher (
      bind (take_tagged oid.rest 4 missing_iv)
        (λ iv. expect (length iv.value == 16) iv_length (ok iv.value))))

-- BearSSL's HMAC with SHA-256 of a key and a message, its AES-256 in CBC mode from a key, an IV and
-- whole blocks, and whether malloc finds the bytes asked for.
pub record Crypto : Type 0 where
  pub hmac : List ℕ → List ℕ → List ℕ
  pub aes_cbcdec : List ℕ → List ℕ → List ℕ → List ℕ
  pub malloc : ℕ → Bool

unfoldable pub xor_bytes : List ℕ → List ℕ → List ℕ
xor_bytes [] ys = []
xor_bytes (x ∷ xs) [] = x ∷ xs
xor_bytes (x ∷ xs) (y ∷ ys) = bit_xor x y ∷ xor_bytes xs ys

module _ (c : Crypto) where
  -- The inner loop, from u and t.
  unfoldable pub pbkdf2_rounds : List ℕ → ℕ → List ℕ → List ℕ → List ℕ
  pbkdf2_rounds pass zero u t = t
  pbkdf2_rounds pass (suc n) u t =
      let u' = c.hmac pass u in pbkdf2_rounds pass n u' (xor_bytes t u')

  -- The four bytes of the block's index.
  unfoldable pub index_bytes : ℕ → List ℕ
  index_bytes i = i / 2 ^ 24 % 2 ^ 8 ∷ i / 2 ^ 16 % 2 ^ 8 ∷ i / 2 ^ 8 % 2 ^ 8 ∷ i % 2 ^ 8 ∷ []

  -- The outer loop, on fuel, with the bytes still wanted.
  unfoldable pub pbkdf2_blocks : ℕ → List ℕ → List ℕ → ℕ → ℕ → ℕ → List ℕ
  pbkdf2_blocks zero pass salt iters idx wanted = []
  pbkdf2_blocks (suc n) pass salt iters idx wanted =
      let u = c.hmac pass (salt ++ index_bytes idx) in
      let t = pbkdf2_rounds pass (iters - 1) u u in
      let rest = pbkdf2_blocks n pass salt iters (idx + 1) (wanted - 32) in
      if wanted == 0 then [] else take (min 32 wanted) t ++ rest

  -- `brssl_pbkdf2`; each block gives a byte at least.
  unfoldable pub brssl_pbkdf2 : List ℕ → List ℕ → ℕ → ℕ → Option (List ℕ)
  brssl_pbkdf2 pass salt iters outlen =
      if iters == 0 then none else some (pbkdf2_blocks outlen pass salt iters 1 outlen)

  unfoldable pub brssl_cbc_decrypt : List ℕ → List ℕ → List ℕ → Option (List ℕ)
  brssl_cbc_decrypt key iv bytes =
      if (length bytes == 0) || not (length bytes % 16 == 0)
      then none
      else some (c.aes_cbcdec key iv bytes)

  unfoldable pub strip : List ℕ → Result (List ℕ)
  strip plain =
      let n = brssl_strip_pkcs7 plain 16 in if n == 0 then err bad_padding else ok (take n plain)

  unfoldable pub strip_some : Option (List ℕ) → Result (List ℕ)
  strip_some none = err cbc_failed
  strip_some (some plain) = strip plain

  unfoldable pub decrypt_with : List ℕ → List ℕ → Option (List ℕ) → Result (List ℕ)
  decrypt_with iv ct none = err pbkdf2_failed
  decrypt_with iv ct (some dk) =
      if c.malloc (length ct) then strip_some (brssl_cbc_decrypt dk iv ct) else err oom

  -- The key derivation and the decryption, once the envelope is read.
  unfoldable pub decrypt : List ℕ → List ℕ → List ℕ → List ℕ → List ℕ → Result (List ℕ)
  decrypt password salt count iv ct =
      decrypt_with iv ct (brssl_pbkdf2 password salt (big_endian 0 count) 32)

  -- What follows the algorithm's identifier.
  unfoldable pub read_params : List ℕ → List ℕ → List ℕ → Result (List ℕ)
  read_params password params after = bind (take_tagged params 48 missing_kdf) (λ kdf.
      bind (take_tagged kdf.value 6 unsupported_kdf) (λ oid.
        expect (brssl_oid_match oid.value oid_pbkdf2) unsupported_kdf (
          bind (kdf_params oid.rest) (λ found.
            bind (take_tagged kdf.rest 48 missing_cipher_seq) (λ enc. bind (iv_of enc.value) (λ iv.
              bind (take_tagged after 4 missing_data)
                (λ ct. decrypt password found.0 found.1 iv ct.value)))))))

  -- `brssl_pbes2_decrypt`, with a buffer and a password that are not null.
  unfoldable pub brssl_pbes2_decrypt : List ℕ → List ℕ → Result (List ℕ)
  brssl_pbes2_decrypt der password = expect (not (length password == 0)) empty_password (
      bind (take_tagged der 48 not_a_sequence) (λ top.
        bind (take_tagged top.value 48 missing_algorithm_seq) (λ alg.
          bind (take_tagged alg.value 6 missing_algorithm_oid) (λ oid.
            expect (brssl_oid_match oid.value oid_pbes2) unsupported_algorithm (
              bind (take_tagged oid.rest 48 missing_params)
                (λ params. read_params password params.value alg.rest))))))
