-- ===== src/SecureClient/Tests.antt =====
-- The hooks of ESP32 at concrete inputs.
use async_tcp.Prelude.{
  ◌++◌, ℕ, ◌+◌, ◌<◌, ◌≡◌, refl, Bool, true, false, arith, Option, none, List, [], ◌∷◌, length, ap,
}
use async_tcp.Session.Rx.{Bio, Allocator}
use async_tcp.SecureClient.{Answer, result, want, Mbedtls, Sys, Env, on_recv, read_loop}
use async_tcp.SecureClient.Recv.{IsQuiet, settled, bytes_of, delivered, on_recv-settled}
use async_tcp.SecureClient.Late.{on_recv-delivered}
use async_tcp.SecureClient.Send.{bytes_sent, flush, short_of_memory, copies, flush-copies}
use async_tcp.Client.State
use async_tcp.SecureClient.Reads.{IsFinite, read_loop-suc}

-- An allocator without memory, and an mbedTLS that has some bytes to give, one at a time.
abbrev no_memory : Allocator
no_memory = record {
  realloc = λ b n. none;
  realloc_size = λ b n c e. absurd cc;
  realloc_keeps = λ b n c e. absurd cc;
}

give_one : List ℕ → Option Bio → Answer (List ℕ) × List ℕ × Option Bio
give_one [] bio = (want, [], bio)
give_one (x ∷ xs) bio = (result (x ∷ []), xs, bio)

abbrev toy : Mbedtls (List ℕ)
toy = record {
  ssl_handshake = λ m bio. (result true, m, bio);
  ssl_read = λ m bio n. give_one m bio;
  ssl_write = λ m bio bytes. (result (length bytes), m, bio);
  verified = λ m. true;
  skipped = λ m. false;
}

abbrev env : Env (List ℕ)
env = record { mbedtls = toy; allocator = no_memory; now = 5; app = λ n s. s }

abbrev client : Bool → Sys (List ℕ)
client over = record {
  tls = record {
    ssl_ctx = 7 ∷ 8 ∷ [];
    rx = record { bio = none; pending_pbufs = [] };
    has_pcb = true;
    handshake_done = over;
    handshake_start_time = 0;
    have_ca_cert = true;
    open_pcb = true;
    last_rx = 0;
  };
  log = [];
}

quiet : IsQuiet env
quiet = record { settles = λ n s. refl; delivers = λ n s. refl }

gives_less :
    (m m' : List ℕ) (bio bio' : Option Bio) (n x : ℕ) (xs : List ℕ)
    → give_one m bio ≡ (result (x ∷ xs), m', bio')
    → length m' < length m
unfolding give_one
gives_less [] m' bio bio' n x xs e = absurd cc
gives_less (y ∷ ys) m' bio bio' n x xs e = let f : ys ≡ m' = cc in omega (arith, ap length f)

finite : IsFinite env (λ m bio. length m)
finite = record { reads = gives_less; callbacks = λ n s. refl }

on_recv-settled_example :
    settled (on_recv env 9 (client true) ((1 ∷ 2 ∷ []) ∷ (3 ∷ []) ∷ []))
    ≡ settled (client true) + bytes_of ((1 ∷ 2 ∷ []) ∷ (3 ∷ []) ∷ [])
on_recv-settled_example = on_recv-settled env quiet 9 (client true) ((1 ∷ 2 ∷ []) ∷ (3 ∷ []) ∷ [])

on_recv-delivered_test :
    delivered (on_recv env 9 (client false) ((1 ∷ 2 ∷ []) ∷ [])).log ≡ delivered (client false).log
on_recv-delivered_test = on_recv-delivered env quiet 9 (client false) ((1 ∷ 2 ∷ []) ∷ []) refl

read_loop-suc_test : read_loop env 3 (client true) ≡ read_loop env 4 (client true)
read_loop-suc_test = read_loop-suc env (λ m bio. length m) finite 3 (client true) (omega arith)

flush-copies_example :
    flush (short_of_memory 2) (9 ∷ []) (1 ∷ 2 ∷ [])
    ≡ (bytes_sent 2, (9 ∷ []) ++ copies 3 (1 ∷ 2 ∷ []))
flush-copies_example = flush-copies 2 (9 ∷ []) (1 ∷ 2 ∷ [])

-- lwIP with room for 100 bytes, and a client on it.
abbrev pub transport : State.Env
transport = record {
  pcb_state = λ s p. 4;
  sndbuf = λ s p. 100;
  tcp_write = λ s n. 0;
  tcp_output = λ s. 0;
  tcp_close = λ s. 0;
  tcp_connect = λ s. 0;
  tcp_new = λ s. 9;
  gethostbyname = λ s. (5, 0);
  new_token = λ s. 77;
  hooks = none;
  connect_cb = none;
  discard_cb = none;
  server_discard_cb = none;
  sent_cb = none;
  error_cb = none;
  recv_cb = none;
  pb_cb = none;
  timeout_cb = none;
  poll_cb = none;
}

abbrev pub dialled : State.Sys
dialled = record {
  client = record {
    self = 500;
    pcb = 7;
    facade = 600;
    cb_ctx = [];
    rx_ack_len = 0;
    rx_timeout = 0;
    rx_last_ack = 0;
    rx_last_packet = 0;
    tx_last_packet = 0;
    ack_timeout = 5000;
    connect_port = 443;
    dns_token = 0;
    dead = false;
  };
  queue = record { packets = []; rng = 1 };
  calls = [];
  now = 90;
}
