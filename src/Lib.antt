-- ===== src/Lib.antt =====
-- A model of the AsyncTCP library: asynchronous TCP clients and servers on lwIP, with TLS, for ESP32
-- (mbedTLS) and ESP8266.
--
-- lwIP's callbacks put event packets on one global queue; a task (ESP32) or a scheduled function
-- (ESP8266, LibreTiny) takes them off and runs the handlers of the client or listener they name.
-- A TLS server first parks connections that it has no session for, in a static pool, buffers what
-- they send, and serves the oldest when a session ends. A TLS session copies the ciphertext that its
-- client receives into a buffer, from which the TLS engine reads.
--
-- Prelude holds the names that the modules share. The parts and their files:
--   IntrusiveList  src/AsyncTCPSimpleIntrusiveList.h. Nodes are addresses and `next` a function;
--                  IntrusiveList/Chain says when such a store stands for a list, and
--                  IntrusiveList/Refinement runs its operations, with those on lists as their
--                  specification.
--   EventQueue     src/AsyncTCP.cpp: the packets, the queue, `_get_async_event`,
--                  `_remove_events_for_client`, `_send_async_event`, `_prepend_async_event` and
--                  `_process_async_event`, on the list for which the intrusive list stands, and in
--                  EventQueue/Task `_async_service_task` and its notifications.
--   ParkQueue      src/AsyncTCPParkQueue.h: the pool, `park_alloc`, `unlink_pending`, and the two
--                  ways to empty a queue.
--   SecureServer   src/AsyncSecureServer.cpp, the ESP32 part: `_acceptTls`, `_serveTls`, `_s_poll`,
--                  `_s_recv`, `_s_error` and `_promoteSlot` on the pool and the queue.
--                  SecureServer/Config has the certificate and the key, `beginSecure` and
--                  `ensureParsed`, SecureServer/Accepted `_acceptedTls`, and
--                  SecureServer/Starved the server beside a client that connects again.
--   Session        src/AsyncSecureSession.cpp, the ESP32 part: Session/Rx has `feedRxData`,
--                  `feedRx`, `hasRxData` and `read`. Of the ESP8266 part, Session/Der has the
--                  reader of DER, Session/Pkcs7 the padding of an encrypted key and Session/Pbes2
--                  `brssl_pbes2_decrypt` with its key derivation, Session/Pem the readers of PEM,
--                  Session/ServerCtx `tcp_ssl_new_server_ctx` on them, and Session/Insecure the
--                  validator of certificates.
--   Client         src/AsyncTCP.h and src/AsyncTCP.cpp: AsyncClientImpl. Client/Transport has the
--                  wrappers of lwIP, Client/Api the public methods, Client/Handlers the handlers of
--                  events and `handle_async_event`, Client/Status the queries and
--                  Client/Callbacks what lwIP calls.
--                  Client/Window counts what is acknowledged and owed; Client/Stack, Client/Delivery
--                  and Client/Receive follow it through `_recv`.
--   Server         src/AsyncTCP.cpp: AsyncServerImpl, `tcp_accept` and the dispatch of accepts.
--   Engine         src/AsyncSecureSession.cpp, the ESP8266 part: a session on BearSSL. Engine/Model
--                  has its state, Engine/Pending the queue of received pbufs, Engine/Ring the ring
--                  of outbound records, Engine/Pass `process_ssl_engine` and its scheduling,
--                  Engine/Api the calls of the session, Engine/Live its life, Engine/Slab the
--                  layout of its buffers, Engine/Registry the list of sessions, Engine/Start their
--                  start, Engine/Admit the server's admission of src/AsyncSecureServer.cpp, and
--                  Engine/Listen its `beginSecure` on Server and Session/ServerCtx.
--                  Engine/Hooks has the session's owner and the hooks of src/AsyncSecureClient.cpp on
--                  it, and Engine/Connect `beginSecure` and `onConnected`.
--   SecureClient   src/AsyncSecureSession.cpp and src/AsyncSecureClient.cpp, the ESP32 part: the
--                  handshake, the reads and the hooks of a client's session on mbedTLS, over
--                  Session/Rx. SecureClient/Start has `_startSSLClient` with its keys and
--                  certificates, `startClient` and `startSSLServer`, SecureClient/Send the
--                  callbacks that write and read, SecureClient/Life the constructor and the destructor,
--                  and SecureClient/Begin `beginSecure` and `onConnected` on the client and its session.
--
-- A pointer is an address, a number, and 0 is null. Sizes and times are natural numbers; uint32_t
-- values that wrap around have it written out. An error code stands for its absolute value. The
-- calls that the code makes into lwIP and the application are logged in order. What lwIP, malloc and
-- realloc answer, the application's callbacks and the TLS engine are parameters. A function that runs
-- under the core lock or the queue's mutex is one step, but that EventQueue/Task parts the queueing of
-- a packet from its notification. Constants have their defaults: 64 packets, 6 slots, 2 sessions, 2000
-- bytes for a parked connection, 8192 for the receive buffer.
--
-- Loops over pointers, and `_get_async_event`, take fuel. The length of the list and one more unit is
-- enough for each, which the theorems on them have as a hypothesis and prove sufficient.
--
-- HMAC and AES are BearSSL's and so parameters of Session/Pbes2; lists of bytes stand for its buffers.
-- The fuel of PBKDF2's outer loop is the number of bytes wanted, of which each block gives one at least.
-- BearSSL's PEM decoder is a parameter of Session/Pem that takes no more bytes than it is offered and
-- tells of at most one edge of an object for each; the loop over its edges then needs fuel for the
-- bytes and the edges still to tell, and the loop over the text for twice the bytes and these edges.
--
-- The BearSSL engine and mbedTLS are records of functions on a state of their own. A run of the
-- engine goes out to other work where the code yields or calls back; what happens there is a
-- parameter too, which may free the session. The number and the size of the ring's slots are
-- parameters, of which 1 and 2 * TCP_MSS are the defaults. The feed loop's fuel is the bytes and the
-- pbufs that wait, and the loop of `process_ssl_engine` has its own bound of 10 turns.
--
-- Not modelled: the TLS engines, what mbedTLS and BearSSL make of a certificate, the set-up of a
-- random generator and of BearSSL's engine, address and socket option accessors, logging, and the
-- examples.
pub mod Prelude
pub mod Session
pub mod IntrusiveList
pub mod Engine
pub mod EventQueue
pub mod ParkQueue
pub mod SecureClient
pub mod SecureServer
pub mod Client
pub mod Server
