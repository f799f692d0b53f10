-- ===== src/Client.antt =====
-- AsyncClientImpl (src/AsyncTCP.h, src/AsyncTCP.cpp): its state, the calls that it makes into lwIP,
-- its public methods and the handlers of its events. Each child module has a part of them.
pub mod State
pub mod Transport
pub mod Api
pub mod Handlers
pub mod Callbacks
pub mod Window
pub mod Stack
pub mod Delivery
pub mod Receive
pub mod Status
pub mod Timeout
mod Tests
