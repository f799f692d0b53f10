-- ===== src/SecureClient/Life.antt =====
-- The life of a session of ESP32: the constructor and the destructor of AsyncSecureSession
-- (src/AsyncSecureSession.cpp), and the start between them.
use async_tcp.Prelude.{
  ℕ, ◌+◌, ◌*◌, ◌-◌, ◌≡◌, refl, arith, Bool, true, false, Option, none, List, [], ◌∷◌,
}
use async_tcp.SecureClient.Start.{
  Conf, Setup, Calls, Credentials, Step, go, stop, or_empty, chosen, delete_handshake_certs,
  start_client,
}
use async_tcp.SecureClient.Start.Policy.{
  has, ones, IsCounted, IsFree, IsFresh, Ensures, delete_handshake_certs-IsFree,
}
use async_tcp.SecureClient.Start.Outcome.{IsStarted, start_ssl_client-Ensures}

-- SSL_HANDSHAKE_TIMEOUT
abbrev pub ssl_handshake_timeout : ℕ
ssl_handshake_timeout = 10000

-- The set-up, what `setClientCredentials` kept, whether the contexts are there and the receive
-- buffer, and the chain that is held.
pub record Session : Type 0 where
  pub setup : Setup
  pub deferred : Option (List ℕ) × Credentials
  pub contexts : Bool
  pub rx_buf : Bool
  pub pending_pbufs : List (List ℕ)

abbrev no_credentials : Credentials
no_credentials = record {
  root_ca = none;
  cli_cert = none;
  cli_key = none;
  psk_ident = none;
  ps_key = none;
  password = none;
}

-- A session that was made; `init` is what mbedtls_ssl_config_init sets.
unfoldable pub new_setup : Conf → Setup
new_setup init = record {
  conf = init;
  hostname = none;
  key_password = none;
  have_ca_cert = false;
  have_client_cert = false;
  have_client_key = false;
  ca_certs = 0;
  client_certs = 0;
  client_keys = 0;
  has_pcb = false;
  has_bio = false;
  handshake_start_time = 0;
  handshake_timeout = ssl_handshake_timeout;
}

-- The constructor, with `_active_count`; `malloc` says whether there is a receive buffer.
unfoldable pub construct : Conf → Bool → ℕ → Session × ℕ
construct init malloc active_count = (
  record {
    setup = new_setup init;
    deferred = (none, no_credentials);
    contexts = true;
    rx_buf = malloc;
    pending_pbufs = [];
  },
  active_count + 1,
)

-- The destructor.
unfoldable pub destroy : Session × ℕ → Session × ℕ
destroy (s, active_count) = (
  record {
    setup = record (delete_handshake_certs s.setup) { key_password = none };
    deferred = (none, record s.deferred.1 { password = none });
    contexts = false;
    rx_buf = false;
    pending_pbufs = [];
  },
  active_count - 1,
)

-- The blocks that a session holds: its certificates and its key, the copies of the host and of the
-- passwords, the contexts, the receive buffer and the chain.
abbrev pub blocks : Session → ℕ
blocks s =
    s.setup.ca_certs
    + s.setup.client_certs
    + s.setup.client_keys
    + ones (has s.setup.key_password)
    + ones (has s.deferred.0)
    + ones (has s.deferred.1.password)
    + 2 * ones s.contexts
    + ones s.rx_buf
    + (elim s.pending_pbufs [ [] ↦ 0 | _ ∷ _ ↦ 1 ])

abbrev pub setup_of : Step → Setup
setup_of (go s) = s
setup_of (stop r s) = s

-- Of what the flags say that it is to be freed there is one.
IsFree-IsCounted : (s : Setup) → IsFree s → IsCounted s
IsFree-IsCounted s f = ground (arith, f.ca, f.cert, f.key, f.ca_chain, f.own_cert, f.flags)

new_setup-IsFresh :
    (init : Conf) → init.ca_chain ≡ false → init.own_cert ≡ false → IsFresh (new_setup init)
unfolding new_setup
new_setup-IsFresh init e f = record {
  free = record {
    ca = refl;
    cert = refl;
    key = refl;
    ca_chain = e;
    own_cert = f;
    flags = (refl, refl, refl);
  };
  idle = refl;
}

Ensures-IsCounted :
    (c : Calls) (host : List ℕ) (k : Credentials) (r : Step)
    → Ensures (IsStarted c host k) r
    → IsCounted (setup_of r)
Ensures-IsCounted c host k (go s) h = h.built.counted
Ensures-IsCounted c host k (stop r s) h = IsFree-IsCounted s h.1

destroy-blocks : (s : Session) (n : ℕ) → IsCounted s.setup → blocks (destroy (s, n)).0 ≡ 0
unfolding destroy
destroy-blocks s n v =
    let free = delete_handshake_certs-IsFree s.setup v in
    ground (arith, free.ca, free.cert, free.key)

-- The session as it is when it was used: it was started, perhaps on no pcb, with what
-- `setClientCredentials` kept, and it holds a buffer and a chain, or none.
abbrev pub used :
    Calls → Session → Option (List ℕ) × Credentials → Bool → Bool → List (List ℕ) → Session
used c s deferred pcb rx_buf pending = record s {
  setup = setup_of (start_client c pcb deferred s.setup);
  deferred = deferred;
  rx_buf = rx_buf;
  pending_pbufs = pending;
}

-- A session of ESP32 that is made, given any credentials, started as a client on a pcb or on none,
-- with any answers of mbedTLS, and holds a buffer and pbufs or none, has just the certificates and
-- the key that its flags say are to be freed, one of each; and its destructor leaves nothing of
-- what it held and `_active_count` as it was before the constructor. The configuration that
-- mbedTLS initialises refers to no certificate.
pub destroy-construct :
    (c : Calls) (init : Conf) (malloc : Bool) (active_count : ℕ)
    → init.ca_chain ≡ false
    → init.own_cert ≡ false
    → (deferred : Option (List ℕ) × Credentials) (pcb rx_buf : Bool) (pending : List (List ℕ))
    → let (s, live) = construct init malloc active_count in
      let u = used c s deferred pcb rx_buf pending in
      let (gone, left) = destroy (u, live) in
      IsCounted u.setup × (blocks gone ≡ 0) × (left ≡ active_count)
unfolding construct destroy start_client
destroy-construct c init malloc active_count e f deferred pcb rx_buf pending =
    let s = new_setup init in
    let started =
      start_ssl_client-Ensures c (or_empty deferred.0) (chosen deferred.1) pcb s
        (new_setup-IsFresh init e f) in
    let counted = Ensures-IsCounted c (or_empty deferred.0) (chosen deferred.1) _ started in
    (
      counted,
      destroy-blocks (used c (construct init malloc active_count).0 deferred pcb rx_buf pending)
          (active_count + 1) counted,
      omega arith,
    )
