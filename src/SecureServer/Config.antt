-- ===== src/SecureServer/Config.antt =====
-- The certificate and the key of a TLS server on ESP32: `beginSecure` and the setters of
-- SecureServerHooks (src/AsyncSecureServer.cpp) and `ensureParsed` of AsyncSecureServerCtx
-- (src/AsyncSecureSession.cpp). A text is the list of its bytes, without the NUL.
pub mod Kept
mod Tests
use async_tcp.Prelude.{
  ℕ, suc, Bool, true, false, not, ◌&&◌, ◌||◌, Option, none, some, List, [], ◌∷◌, ◌++◌, ◌==◌,
  if◌then◌else◌, length,
}
use async_tcp.SecureClient.Start.{Ret, success, negative, is_success}
use async_tcp.Server

-- Bytes at an address, with their length as it was given.
pub record Buffer : Type 0 where
  pub bytes : List ℕ
  pub len : ℕ

-- AsyncSecureServerCtx: `cert` is a chain, to which each parse adds.
pub record ServerCtx : Type 0 where
  pub parsed : Bool
  pub cert : List (List ℕ)
  pub key : Option (List ℕ)

-- SecureServerHooks, with its listener; none is NULL.
pub record Config : Type 0 where
  pub srv : Server.Server
  pub use_ssl : Bool
  pub cert : Option Buffer
  pub key : Option Buffer
  pub ssl_key_password : Option (List ℕ)
  pub secure_ctx : ServerCtx

-- What mbedTLS makes of a certificate, with what it adds to the chain, and of a key; the state of
-- a listening pcb; and lwIP's answers for the listener.
pub record Calls : Type 0 where
  pub crt_parse : Buffer → Ret × List (List ℕ)
  pub parse_private_key : Buffer → Option (List ℕ) → Ret
  pub pcb_state : ℕ → ℕ
  pub answers : Server.Answers

module _ (c : Calls) where
  -- The key, once the certificate is read.
  unfoldable pub parse_key : Buffer → Option (List ℕ) → ServerCtx → Ret × ServerCtx
  parse_key key password x =
      let r = c.parse_private_key key password in
      if is_success r
      then (success, record x { parsed = true; key = some key.bytes })
      else (r, record x { cert = [] })

  unfoldable pub parse_cert : Buffer → Buffer → Option (List ℕ) → ServerCtx → Ret × ServerCtx
  parse_cert cert key password x =
      let (r, chain) = c.crt_parse cert in
      let y = record x { cert = x.cert ++ chain } in
      if is_success r then parse_key key password y else (r, y)

  -- `ensureParsed`, with buffers that are not null.
  unfoldable pub ensure_parsed : Buffer → Buffer → Option (List ℕ) → ServerCtx → Ret × ServerCtx
  ensure_parsed cert key password x =
      if x.parsed
      then (success, x)
      else (if (cert.len == 0) || (key.len == 0)
          then (negative 1, x)
          else parse_cert cert key password x)

  -- `status`
  unfoldable pub status : Server.Server → ℕ
  status s = if s.pcb == 0 then 0 else c.pcb_state s.pcb

  unfoldable pub listening : Ret × ServerCtx → Config → Bool × Config
  listening (r, x) s =
      let srv = Server.begin c.answers s.srv in
      if is_success r
      then (not (status srv == 0), record s { srv = srv; use_ssl = true; secure_ctx = x })
      else (false, record s { secure_ctx = x })

  unfoldable pub begin_with : Buffer → Buffer → Config → Bool × Config
  begin_with cert key s =
      listening (ensure_parsed cert key s.ssl_key_password s.secure_ctx)
        (record s { cert = some cert; key = some key })

  -- `beginSecure` of a certificate and a key with their lengths.
  unfoldable pub begin_secure : Option Buffer → Option Buffer → Config → Bool × Config
  begin_secure (some cert) (some key) s = begin_with cert key s
  begin_secure (some cert) none s = (false, s)
  begin_secure none key s = (false, s)

  -- strlen + 1
  unfoldable pub pem : Option (List ℕ) → Option Buffer
  pem none = none
  pem (some text) = some (record { bytes = text; len = suc (length text) })

  unfoldable pub begin_secure_pem : Option (List ℕ) → Option (List ℕ) → Config → Bool × Config
  begin_secure_pem cert key s = begin_secure (pem cert) (pem key) s

  unfoldable pub begin_secure_password :
      Option (List ℕ) → Option (List ℕ) → Option (List ℕ) → Config → Bool × Config
  begin_secure_password cert key password s =
      begin_secure_pem cert key (record s { ssl_key_password = password })

unfoldable pub set_default_certificate : Option Buffer → Config → Config
set_default_certificate cert s = record s { cert = cert }

unfoldable pub set_default_key : Option Buffer → Config → Config
set_default_key key s = record s { key = key }

-- A call of the application.
pub data Op : Type 0 where
  begin_pem : (cert key password : Option (List ℕ)) → Op
  begin_raw : (cert key : Option Buffer) → Op
  default_cert default_key : Option Buffer → Op

module _ (c : Calls) where
  unfoldable pub apply : Op → Config → Config
  apply (begin_pem cert key password) s = (begin_secure_password c cert key password s).1
  apply (begin_raw cert key) s = (begin_secure c cert key s).1
  apply (default_cert cert) s = set_default_certificate cert s
  apply (default_key key) s = set_default_key key s

  unfoldable pub run : List Op → Config → Config
  run [] s = s
  run (op ∷ ops) s = run ops (apply op s)

-- Whether `_acceptTls` and `_acceptedTls` take the server to be configured.
unfoldable pub ready : Config → Bool
ready s =
    s.use_ssl
    && elim s.cert [ none ↦ false | some cert ↦ elim s.key [ none ↦ false | some key ↦ true ] ]
