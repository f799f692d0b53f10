-- ===== src/Session/Pbes2/RoundTrip.antt =====
-- A private key that was encrypted, and `brssl_pbes2_decrypt` of src/AsyncSecureSession.cpp
-- (ESP8266) on its envelope.
use async_tcp.Prelude.{
  ℕ, ◌+◌, ◌%◌, ◌^◌, ◌≤◌, ◌<◌, ◌≡◌, ◌≢◌, refl, ap, ◌∙◌, arith, true, false, not, ◌||◌, List, ◌==◌,
  ==_ne, length, replicate,
}
use async_tcp.Session.Der.{big_endian, take-append_all}
use async_tcp.Session.Pkcs7.{padded, length-padded, brssl_strip_pkcs7-padded}
use async_tcp.Session.Pbes2.{
  ok, Crypto, pbkdf2_blocks, brssl_pbkdf2, brssl_cbc_decrypt, strip, strip_some, decrypt_with,
  decrypt, brssl_pbes2_decrypt,
}
use async_tcp.Session.Pbes2.Envelope.{envelope, brssl_pbes2_decrypt-envelope}

-- A cipher that AES decryption undoes on whole blocks.
pub record IsCipherOf (c : Crypto) (aes_cbcenc : List ℕ → List ℕ → List ℕ → List ℕ) : Type 0 where
  pub undone :
      (dk iv bytes : List ℕ)
      → length bytes % 16 ≡ 0
      → c.aes_cbcdec dk iv (aes_cbcenc dk iv bytes) ≡ bytes
  pub same_length : (dk iv bytes : List ℕ) → length (aes_cbcenc dk iv bytes) ≡ length bytes

module _ (c : Crypto) (aes_cbcenc : List ℕ → List ℕ → List ℕ → List ℕ) where
  abbrev pub derived : List ℕ → List ℕ → List ℕ → List ℕ
  derived password salt count = pbkdf2_blocks c 32 password salt (big_endian 0 count) 1 32

  abbrev pub encrypted : (password salt count iv key : List ℕ) (pad : ℕ) → List ℕ
  encrypted password salt count iv key pad =
      aes_cbcenc (derived password salt count) iv (padded key pad)

module _ (c : Crypto) (aes_cbcenc : List ℕ → List ℕ → List ℕ → List ℕ)
    (law : IsCipherOf c aes_cbcenc) where
  strip-padded :
      (key : List ℕ) (pad : ℕ)
      → 0 < length key
      → 0 < pad
      → pad ≤ 16
      → (length key + pad) % 16 ≡ 0
      → strip c (padded key pad) ≡ ok key
  unfolding strip
  strip-padded key pad some_key some_pad small whole =
      let kept : (length key == 0) ≡ false = ground arith in
      rw
        (
          brssl_strip_pkcs7-padded key pad 16 some_pad small whole,
          kept,
          take-append_all key (replicate pad pad),
        )
        refl

  decrypt-encrypted :
      (password salt count iv key : List ℕ) (pad : ℕ)
      → big_endian 0 count ≢ 0
      → 0 < length key
      → 0 < pad
      → pad ≤ 16
      → (length key + pad) % 16 ≡ 0
      → c.malloc (length key + pad) ≡ true
      → decrypt c password salt count iv (encrypted c aes_cbcenc password salt count iv key pad)
        ≡ ok key
  unfolding decrypt decrypt_with brssl_pbkdf2 strip_some brssl_cbc_decrypt
  decrypt-encrypted password salt count iv key pad some_rounds some_key some_pad small whole room =
      let dk = derived c aes_cbcenc password salt count in
      let total : length (padded key pad) ≡ length key + pad = length-padded key pad in
      let size : length (encrypted c aes_cbcenc password salt count iv key pad) ≡ length key + pad =
        law.same_length dk iv (padded key pad) ∙ total in
      let blocks : ((length key + pad == 0) || not ((length key + pad) % 16 == 0)) ≡ false =
        ground arith in
      let back : c.aes_cbcdec dk iv (encrypted c aes_cbcenc password salt count iv key pad)
          ≡ padded key pad =
        law.undone dk iv (padded key pad) (ap (λ n. n % 16) total ∙ whole) in
      rw (==_ne (big_endian 0 count) 0 some_rounds, size, room, blocks, back)
        (strip-padded key pad some_key some_pad small whole)

  -- Decrypting the DER envelope of a key, of at least a byte, that was encrypted with a password,
  -- not empty, gives the key back. The key is padded to whole blocks with 1 to 16 bytes and
  -- encrypted, under the 32 bytes that `brssl_pbkdf2` derives, by any cipher that keeps the length
  -- and that AES decryption undoes. Behind the OID of the PRF stand any parameters, as the NULL of
  -- RFC 8018, or none, and there is no key length. The iteration count has 1 to 4 bytes and is not
  -- 0, the IV has 16 bytes, the envelope less than 2^32, and malloc finds room.
  pub brssl_pbes2_decrypt-encrypted :
      (prf_params password salt count iv key : List ℕ) (pad : ℕ)
      → 0 < length password
      → 0 < length count
      → length count ≤ 4
      → big_endian 0 count ≢ 0
      → length iv ≡ 16
      → 0 < length key
      → 0 < pad
      → pad ≤ 16
      → (length key + pad) % 16 ≡ 0
      → length (
          envelope prf_params salt count iv (encrypted c aes_cbcenc password salt count iv key pad))
        < 2 ^ 32
      → c.malloc (length key + pad) ≡ true
      → brssl_pbes2_decrypt c
          (envelope prf_params salt count iv
            (encrypted c aes_cbcenc password salt count iv key pad))
          password
        ≡ ok key
  brssl_pbes2_decrypt-encrypted prf_params password salt count iv key pad some_password some_count
        few some_rounds sixteen some_key some_pad small whole fits room =
      brssl_pbes2_decrypt-envelope c prf_params password salt count iv
        (encrypted c aes_cbcenc password salt count iv key pad) some_password some_count few sixteen
        fits
      ∙ decrypt-encrypted password salt count iv key pad some_rounds some_key some_pad small whole
          room
