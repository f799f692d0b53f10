-- ===== src/Session/Pbes2/Envelope.antt =====
-- The envelope of an encrypted private key in DER, and how `brssl_pbes2_decrypt` of
-- src/AsyncSecureSession.cpp (ESP8266) reads it.
use async_tcp.Prelude.{
  ℕ, ◌+◌, ◌^◌, ◌≤◌, ◌<◌, ◌≡◌, ◌≢◌, refl, ◌∙◌, arith, true, false, not, ◌||◌, List, [], ◌∷◌, ◌++◌,
  ◌==◌, ==_refl, ltb, length, length-append,
}
use async_tcp.Session.Der.{Element, encode_length, brssl_der_peek_tag, brssl_der_take-encode}
use async_tcp.Session.Pbes2.{
  Reason, Result, ok, bind, brssl_oid_match, oid_pbes2, oid_pbkdf2, oid_hmac_sha256, oid_aes256_cbc,
  check_tag, take_tagged, expect, skip_key_length, check_prf, kdf_params, iv_of, Crypto, decrypt,
  read_params, brssl_pbes2_decrypt,
}
use async_tcp.Session.Pbes2.{bad_prf_seq, unsupported_prf}

-- An element before the bytes behind it.
abbrev pub element : ℕ → List ℕ → List ℕ → List ℕ
element tag v rest = tag ∷ encode_length (length v) ++ (v ++ rest)

-- A NULL, the parameters of the PRF in RFC 8018.
abbrev pub der_null : List ℕ
der_null = element 5 [] []

-- The PRF with its parameters, the bytes behind its OID.
abbrev prf : List ℕ → List ℕ
prf prf_params = element 6 oid_hmac_sha256 prf_params

abbrev after_salt : List ℕ → List ℕ → List ℕ
after_salt prf_params count = element 2 count (element 48 (prf prf_params) [])

abbrev kdf_body : List ℕ → List ℕ → List ℕ → List ℕ
kdf_body prf_params salt count = element 4 salt (after_salt prf_params count)

abbrev kdf : List ℕ → List ℕ → List ℕ → List ℕ
kdf prf_params salt count = element 6 oid_pbkdf2 (element 48 (kdf_body prf_params salt count) [])

abbrev cipher : List ℕ → List ℕ
cipher iv = element 6 oid_aes256_cbc (element 4 iv [])

abbrev params : List ℕ → List ℕ → List ℕ → List ℕ → List ℕ
params prf_params salt count iv = element 48 (kdf prf_params salt count) (element 48 (cipher iv) [])

abbrev algorithm : List ℕ → List ℕ → List ℕ → List ℕ → List ℕ
algorithm prf_params salt count iv =
    element 6 oid_pbes2 (element 48 (params prf_params salt count iv) [])

abbrev content : List ℕ → List ℕ → List ℕ → List ℕ → List ℕ → List ℕ
content prf_params salt count iv ct =
    element 48 (algorithm prf_params salt count iv) (element 4 ct [])

-- The whole envelope.
abbrev pub envelope : List ℕ → List ℕ → List ℕ → List ℕ → List ℕ → List ℕ
envelope prf_params salt count iv ct = element 48 (content prf_params salt count iv ct) []

length-element : (tag : ℕ) (v rest : List ℕ) → length v + length rest ≤ length (element tag v rest)
length-element tag v rest =
    omega (arith, length-append (encode_length (length v)) (v ++ rest), length-append v rest)

element-value :
    (tag : ℕ) (v rest : List ℕ) → length (element tag v rest) < 2 ^ 32 → length v < 2 ^ 32
element-value tag v rest small = omega (arith, length-element tag v rest)

element-rest :
    (tag : ℕ) (v rest : List ℕ) → length (element tag v rest) < 2 ^ 32 → length rest < 2 ^ 32
element-rest tag v rest small = omega (arith, length-element tag v rest)

bind-element :
    {A : Type 0} (tag : ℕ) (v rest : List ℕ) (why : Reason) (f : Element → Result A)
    → tag ≢ 31
    → length v < 2 ^ 32
    → bind (take_tagged (element tag v rest) tag why) f
      ≡ f (record { tag = tag; value = v; rest = rest })
unfolding bind take_tagged check_tag
bind-element {A} tag v rest why f ne small =
    rw (brssl_der_take-encode tag v rest ne small, ==_refl tag) refl

check_prf-prf :
    (prf_params : List ℕ)
    → length (element 48 (prf prf_params) []) < 2 ^ 32
    → check_prf (element 48 (prf prf_params) []) ≡ ok true
unfolding check_prf brssl_der_peek_tag expect brssl_oid_match
check_prf-prf prf_params small =
    bind-element 48 (prf prf_params) [] bad_prf_seq
      (λ e.
        bind (take_tagged e.value 6 unsupported_prf)
          (λ oid. expect (brssl_oid_match oid.value oid_hmac_sha256) unsupported_prf (ok true)))
      (omega arith) (element-value 48 (prf prf_params) [] small)
    ∙ bind-element 6 oid_hmac_sha256 prf_params unsupported_prf
        (λ oid. expect (brssl_oid_match oid.value oid_hmac_sha256) unsupported_prf (ok true))
        (omega arith) (omega arith)

kdf_params-kdf_body :
    (prf_params salt count : List ℕ)
    → length (element 48 (kdf_body prf_params salt count) []) < 2 ^ 32
    → 0 < length count
    → length count ≤ 4
    → kdf_params (element 48 (kdf_body prf_params salt count) []) ≡ ok (salt, count)
unfolding kdf_params brssl_der_peek_tag expect skip_key_length bind take_tagged check_tag
kdf_params-kdf_body prf_params salt count small some_count few =
    let body = element-value 48 (kdf_body prf_params salt count) [] small in
    let after = element-rest 4 salt (after_salt prf_params count) body in
    let fits : not ((length count == 0) || ltb 4 (length count)) ≡ true = ground arith in
    rw
      (
        brssl_der_take-encode 48 (kdf_body prf_params salt count) [] (omega arith) body,
        brssl_der_take-encode 4 salt (after_salt prf_params count) (omega arith)
            (element-value 4 salt (after_salt prf_params count) body),
        brssl_der_take-encode 2 count (element 48 (prf prf_params) []) (omega arith)
            (element-value 2 count (element 48 (prf prf_params) []) after),
        fits,
        check_prf-prf prf_params (element-rest 2 count (element 48 (prf prf_params) []) after),
      )
      refl

iv_of-cipher : (iv : List ℕ) → length iv ≡ 16 → iv_of (cipher iv) ≡ ok iv
unfolding iv_of expect brssl_oid_match bind take_tagged check_tag
iv_of-cipher iv sixteen =
    let fits : (length iv == 16) ≡ true = ground arith in
    rw
      (
        brssl_der_take-encode 6 oid_aes256_cbc (element 4 iv []) (omega arith) (omega arith),
        brssl_der_take-encode 4 iv [] (omega arith) (omega arith),
        fits,
      )
      refl

module _ (c : Crypto) (prf_params password salt count iv ct : List ℕ) where
  read_params-params :
      length (params prf_params salt count iv) < 2 ^ 32
      → length ct < 2 ^ 32
      → 0 < length count
      → length count ≤ 4
      → length iv ≡ 16
      → read_params c password (params prf_params salt count iv) (element 4 ct [])
        ≡ decrypt c password salt count iv ct
  unfolding read_params expect brssl_oid_match bind take_tagged check_tag
  read_params-params small small_ct some_count few sixteen =
      let tail = element 48 (cipher iv) [] in
      let in_kdf = element-value 48 (kdf prf_params salt count) tail small in
      let in_tail = element-rest 48 (kdf prf_params salt count) tail small in
      let body = element 48 (kdf_body prf_params salt count) [] in
      let in_body = element-rest 6 oid_pbkdf2 body in_kdf in
      rw
        (
          brssl_der_take-encode 48 (kdf prf_params salt count) tail (omega arith) in_kdf,
          brssl_der_take-encode 6 oid_pbkdf2 body (omega arith) (omega arith),
          kdf_params-kdf_body prf_params salt count in_body some_count few,
          brssl_der_take-encode 48 (cipher iv) [] (omega arith)
              (element-value 48 (cipher iv) [] in_tail),
          iv_of-cipher iv sixteen,
          brssl_der_take-encode 4 ct [] (omega arith) small_ct,
        )
        refl

  pub brssl_pbes2_decrypt-envelope :
      0 < length password
      → 0 < length count
      → length count ≤ 4
      → length iv ≡ 16
      → length (envelope prf_params salt count iv ct) < 2 ^ 32
      → brssl_pbes2_decrypt c (envelope prf_params salt count iv ct) password
        ≡ decrypt c password salt count iv ct
  unfolding brssl_pbes2_decrypt expect brssl_oid_match bind take_tagged check_tag
  brssl_pbes2_decrypt-envelope some_password some_count few sixteen small =
      let given : (length password == 0) ≡ false = ground arith in
      let all = content prf_params salt count iv ct in
      let alg = algorithm prf_params salt count iv in
      let inner = element 48 (params prf_params salt count iv) [] in
      let in_all = element-value 48 all [] small in
      let in_alg = element-value 48 alg (element 4 ct []) in_all in
      let in_inner = element-rest 6 oid_pbes2 inner in_alg in
      let in_params = element-value 48 (params prf_params salt count iv) [] in_inner in
      let in_ct = element-value 4 ct [] (element-rest 48 alg (element 4 ct []) in_all) in
      rw
        (
          given,
          brssl_der_take-encode 48 all [] (omega arith) in_all,
          brssl_der_take-encode 48 alg (element 4 ct []) (omega arith) in_alg,
          brssl_der_take-encode 6 oid_pbes2 inner (omega arith) (omega arith),
          brssl_der_take-encode 48 (params prf_params salt count iv) [] (omega arith) in_params,
        )
        (read_params-params in_params in_ct some_count few sixteen)
