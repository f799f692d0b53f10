-- ===== src/Session/ServerCtx.antt =====
-- The context of a TLS server on ESP8266, `tcp_ssl_new_server_ctx` of src/AsyncSecureSession.cpp
-- with `normalize_pem` and `br_ssl_server_init_lean`. BearSSL's decoders, its keys, its ciphers and
-- the allocations are parameters. The buffers of unique_ptr, which every return frees, are not
-- counted in `heap`.
pub mod Ready
pub mod Tests
use async_tcp.Prelude.{
  ℕ, suc, ◌+◌, ◌-◌, Bool, true, false, not, ◌&&◌, ◌||◌, Option, none, some, List, [], ◌∷◌, ◌++◌,
  ◌==◌, if◌then◌else◌, length,
}
use async_tcp.Session.Pbes2.{Result, ok, err, Crypto, brssl_pbes2_decrypt}
use async_tcp.Session.Pem.{
  Decoder, blocks, map_some, Parsed, parse_certificates, Extracted, brssl_pem_extract_object,
}

-- BearSSL::PrivateKey: a new one from a text or from DER, if there is memory, and its kinds.
pub record Keys (K : Type 0) : Type 0 where
  pub key_of_pem : List ℕ → Option K
  pub key_of_der : List ℕ → Option K
  pub get_rsa : K → Bool
  pub get_ec : K → Bool

-- The cipher suites of `br_ssl_server_init_lean`.
pub data Suites : Type 0 where
  no_suites ecdsa_suites rsa_suites : Suites

-- `BearSSL_SSL_CTX`
pub record Ctx (K : Type 0) : Type 0 where
  pub chain_vector : List (List ℕ)
  pub pk : Option K
  pub suites : Suites
  pub has_cache : Bool

-- What the function returns, the blocks that are allocated and the references on the thunk stack.
pub record Made (K : Type 0) : Type 0 where
  pub ctx : Option (Ctx K)
  pub heap : ℕ
  pub thunk_refs : ℕ

-- The last byte is '\n' or '\r'.
unfoldable pub has_nl : List ℕ → Bool
has_nl [] = false
has_nl (b ∷ []) = (b == 10) || (b == 13)
has_nl (b ∷ c ∷ bytes) = has_nl (c ∷ bytes)

unfoldable pub starts_with : List ℕ → List ℕ → Bool
starts_with [] text = true
starts_with (b ∷ label) [] = false
starts_with (b ∷ label) (c ∷ text) = (b == c) && starts_with label text

-- strstr finds the label.
unfoldable pub strstr : List ℕ → List ℕ → Bool
strstr label [] = starts_with label []
strstr label (c ∷ text) = starts_with label (c ∷ text) || strstr label text

-- "ENCRYPTED PRIVATE KEY"
abbrev pub encrypted_label : List ℕ
encrypted_label =
    69 ∷ 78 ∷ 67 ∷ 82 ∷ 89 ∷ 80 ∷ 84 ∷ 69 ∷ 68 ∷ 32 ∷ 80 ∷ 82 ∷ 73 ∷ 86 ∷ 65 ∷ 84 ∷ 69 ∷ 32 ∷ 75
    ∷ 69 ∷ 89 ∷ []

abbrev pub has_key : {K : Type 0} → Option K → ℕ
has_key none = 0
has_key (some key) = 1

-- `delete ctx`, with the certificates and the key.
unfoldable pub delete_ctx : {K : Type 0} → Ctx K → ℕ → ℕ
delete_ctx x heap = heap - length x.chain_vector - has_key x.pk - 1

unfoldable pub fail : {K : Type 0} → Ctx K → ℕ → ℕ → Made K
fail x heap refs = record { ctx = none; heap = delete_ctx x heap; thunk_refs = refs }

-- The answers of the allocations of characters and of the context, by their sizes, those of
-- realloc, and whether ASYNC_TCP_SSL_ENABLE_PKCS8_PASSWORD is set.
pub record Build : Type 0 where
  pub alloc : ℕ → Bool
  pub ctx_alloc : Bool
  pub realloc : ℕ → Bool
  pub with_password : Bool

-- `normalize_pem`, with none for a null pointer or no memory.
unfoldable pub normalize_pem : Build → Option (List ℕ) → Option (List ℕ)
normalize_pem m none = none
normalize_pem m (some src) =
    if m.alloc (length src + 2) then some (if has_nl src then src else src ++ 10 ∷ []) else none

-- The password can be copied, or is not needed.
unfoldable pub password_fits : Build → Option (List ℕ) → Bool
password_fits m none = true
password_fits m (some password) = not m.with_password || m.alloc (length password + 1)

module _ {K P : Type 0} (b : Keys K) (c : Crypto) (d : Decoder P) (m : Build) (k n : ℕ) where
  unfoldable pub br_ssl_server_init_lean : K → Ctx K → Ctx K
  br_ssl_server_init_lean key x = record x {
    suites =
        if b.get_ec key then ecdsa_suites else (if b.get_rsa key then rsa_suites else x.suites);
  }

  -- The key, with its block, or none where there was no memory for it.
  unfoldable pub with_key : Option K → Ctx K → ℕ → ℕ → Made K
  with_key none x heap refs = fail x heap refs
  with_key (some key) x heap refs =
      let y = record x { pk = some key } in
      if not (b.get_rsa key) && not (b.get_ec key) then fail y (heap + 1) refs else (record {
        ctx = some (br_ssl_server_init_lean key (record y { has_cache = true }));
        heap = heap + 1;
        thunk_refs = refs + 1;
      })

  -- The DER object's block is freed, and that of the plain text after it.
  unfoldable pub decrypted : Result (List ℕ) → Ctx K → ℕ → ℕ → Made K
  decrypted (err why) x heap refs = fail x (heap - 1) refs
  decrypted (ok plain) x heap refs = with_key (b.key_of_der plain) x (heap + 1 - 1 - 1) refs

  unfoldable pub with_object : Option (List ℕ) → List ℕ → Ctx K → ℕ → ℕ → Made K
  with_object none password x heap refs = fail x heap refs
  with_object (some der) password x heap refs =
      decrypted (brssl_pbes2_decrypt c der password) x heap refs

  unfoldable pub encrypted_key : Option (List ℕ) → List ℕ → Ctx K → ℕ → ℕ → Option (Made K)
  encrypted_key none pem x heap refs = some (fail x heap refs)
  encrypted_key (some []) pem x heap refs = some (fail x heap refs)
  encrypted_key (some (b' ∷ password)) pem x heap refs =
      map_some (λ (e : Extracted). with_object e.out (b' ∷ password) x (heap + e.heap) refs)
        (brssl_pem_extract_object d m.realloc k n pem encrypted_label)

  unfoldable pub load_key : Option (List ℕ) → List ℕ → Ctx K → ℕ → ℕ → Option (Made K)
  load_key password pem x heap refs =
      if m.with_password && strstr encrypted_label pem
      then encrypted_key password pem x heap refs
      else some (with_key (b.key_of_pem pem) x heap refs)

  unfoldable pub with_chain : Option (List ℕ) → List ℕ → ℕ → Option Parsed → Option (Made K)
  with_chain password pem refs none = none
  with_chain password pem refs (some parsed) =
      let x : Ctx K = record {
        chain_vector = parsed.certs;
        pk = none;
        suites = no_suites;
        has_cache = false;
      } in
      if length parsed.certs == 0
      then some (fail x (parsed.heap + 1) refs)
      else load_key password pem x (parsed.heap + 1) refs

  unfoldable pub nothing : ℕ → Option (Made K)
  nothing refs = some (record { ctx = none; heap = 0; thunk_refs = refs })

  unfoldable pub with_texts :
      Option (List ℕ) → Option (List ℕ) → Option (List ℕ) → ℕ → Option (Made K)
  with_texts (some cert) (some key) password refs =
      if m.ctx_alloc && password_fits m password
      then with_chain password key refs (parse_certificates d m.realloc k n cert)
      else nothing refs
  with_texts (some cert) none password refs = nothing refs
  with_texts none key password refs = nothing refs

  -- `tcp_ssl_new_server_ctx`, with none where a loop's fuel runs out.
  unfoldable pub tcp_ssl_new_server_ctx :
      Option (List ℕ) → Option (List ℕ) → Option (List ℕ) → ℕ → Option (Made K)
  tcp_ssl_new_server_ctx cert key password refs =
      with_texts (normalize_pem m cert) (normalize_pem m key) password refs
