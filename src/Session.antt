-- ===== src/Session.antt =====
-- A TLS session (src/AsyncSecureSession.cpp): what it receives, and the reader of its keys.
pub mod Rx
pub mod Der
pub mod Pkcs7
pub mod Pbes2
pub mod Insecure
pub mod Pem
pub mod ServerCtx
mod Tests
