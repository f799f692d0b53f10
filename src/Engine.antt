-- ===== src/Engine.antt =====
-- The BearSSL session of a connection (src/AsyncSecureSession.cpp, ESP8266).
pub mod Model
pub mod Slab
pub mod Registry
pub mod Start
pub mod Admit
pub mod Listen
pub mod Connect
pub mod Ring
pub mod Pending
pub mod Pass
pub mod Api
pub mod Live
pub mod Hooks
mod Tests
