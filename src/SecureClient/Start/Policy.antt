-- ===== src/SecureClient/Start/Policy.antt =====
-- What `_startSSLClient` of ESP32 promises of a session, and what it has pinned before it loads.
use async_tcp.Prelude.{
  ℕ, ◌≡◌, ◌≢◌, refl, ◌∙◌, arith, Bool, true, false, Option, none, some, List, if◌then◌else◌,
}
use async_tcp.SecureClient.Start.{
  Ret, success, positive, negative, is_negative, is_success, is_client, Verify, by_default,
  required, not_verified, Setup, Calls, Step, go, stop, ◌>>=◌, delete_ca, delete_cert, delete_key,
  delete_handshake_certs, checked, pinned_suites, pin, decode_psk,
}

abbrev pub has {ℓ} : {A : Type ℓ} → Option A → Bool
has none = false
has (some a) = true

abbrev pub ones : Bool → ℕ
ones b = if b then 1 else 0

-- The flags say what is to be freed, and the configuration refers to nothing else.
pub record IsCounted (s : Setup) : Type 0 where
  pub ca : s.ca_certs ≡ ones s.have_ca_cert
  pub cert : s.client_certs ≡ ones s.have_client_cert
  pub key : s.client_keys ≡ ones s.have_client_key
  pub ca_chain : s.conf.ca_chain ≡ s.have_ca_cert
  pub own_cert : s.conf.own_cert ≡ true → s.have_client_cert ≡ true

-- Nothing is left to free, and the configuration refers to no certificate.
pub record IsFree (s : Setup) : Type 0 where
  pub ca : s.ca_certs ≡ 0
  pub cert : s.client_certs ≡ 0
  pub key : s.client_keys ≡ 0
  pub ca_chain : s.conf.ca_chain ≡ false
  pub own_cert : s.conf.own_cert ≡ false
  pub flags : (s.have_ca_cert ≡ false) × (s.have_client_cert ≡ false) × (s.have_client_key ≡ false)

pub delete_handshake_certs-IsFree : (s : Setup) → IsCounted s → IsFree (delete_handshake_certs s)
unfolding delete_handshake_certs delete_ca delete_cert delete_key
delete_handshake_certs-IsFree s v = ground (arith, v.ca, v.cert, v.key, v.ca_chain, v.own_cert)

-- Whom the session trusts, from the root certificate, the identity and the key of a pre-shared key.
abbrev pub trust : {A B C : Type 0} → Option A → Option B → Option C → Verify
trust (some ca) i p = required
trust none (some i) (some p) = by_default
trust none (some i) none = not_verified
trust none none p = not_verified

-- The key is what the text that was given stands for.
abbrev pub Shared :
    Calls → Option (List ℕ) → Option (List ℕ) → Option (List ℕ) → Option (List ℕ × List ℕ) → Type 0
Shared c (some ca) i p x = Unit {0}
Shared c none (some i) (some p) x =
    (key : List ℕ) × (decode_psk c p ≡ some key) × (x ≡ some (key, i))
Shared c none (some i) none x = Unit {0}
Shared c none none p x = Unit {0}

-- The client's certificate is used when it, its key and a root certificate are given.
abbrev pub shows {ℓ} : {A : Type ℓ} → Option A → Option A → Option A → Bool
shows (some ca) (some cert) (some key) = true
shows (some ca) (some cert) none = false
shows (some ca) none key = false
shows none cert key = false

pub record Built (c : Calls) (ca i p : Option (List ℕ)) (cert own pcb : Bool) (s : Setup)
    : Type 0 where
  pub endpoint : s.conf.endpoint ≡ is_client
  pub only_tls12 : s.conf.only_tls12 ≡ true
  pub renegotiation : s.conf.renegotiation ≡ false
  pub ciphersuites : s.conf.ciphersuites ≡ pinned_suites
  pub authmode : s.conf.authmode ≡ trust ca i p
  pub shared : Shared c ca i p s.conf.psk
  pub ca_chain : s.conf.ca_chain ≡ has ca
  pub own_cert : s.conf.own_cert ≡ own
  pub have_client_cert : s.have_client_cert ≡ cert
  pub have_client_key : s.have_client_key ≡ own
  pub counted : IsCounted s
  pub idle : s.has_pcb ≡ pcb

-- On every way to stop nothing is left to free, and no pcb was taken.
abbrev pub Stops : Ret → Setup → Type 0
Stops r s = (r ≢ success) × IsFree s × (s.has_pcb ≡ false)

abbrev pub Ensures : (Setup → Type 0) → Step → Type 0
Ensures P (go s) = P s
Ensures P (stop r s) = Stops r s

pub Ensures-bind :
    (P Q : Setup → Type 0) (m : Step) (f : Setup → Step)
    → Ensures P m
    → ((s : Setup) → P s → Ensures Q (f s))
    → Ensures Q (m >>= f)
Ensures-bind P Q (go s) f h k = k s h
Ensures-bind P Q (stop r s) f h k = h

pub negative-ne : (n : ℕ) → negative n ≢ success
negative-ne n e = cc

pub is_success-ne : (r : Ret) → is_success r ≡ false → r ≢ success
is_success-ne r h e = cc

pub is_negative-ne : (r : Ret) → is_negative r ≡ true → r ≢ success
is_negative-ne r h e = cc

delete-has_pcb : (s : Setup) → (delete_handshake_certs s).has_pcb ≡ s.has_pcb
unfolding delete_handshake_certs delete_ca delete_cert delete_key
delete-has_pcb s = ground arith

pub give_up-Stops :
    (r : Ret) (s : Setup)
    → r ≢ success
    → IsCounted s
    → s.has_pcb ≡ false
    → Stops r (delete_handshake_certs s)
give_up-Stops r s ne v idle = (ne, delete_handshake_certs-IsFree s v, delete-has_pcb s ∙ idle)

-- A session that was made and not started.
pub record IsFresh (s : Setup) : Type 0 where
  pub free : IsFree s
  pub idle : s.has_pcb ≡ false

-- The configuration of both roles was set, and nothing is loaded.
pub record Pinned (s : Setup) : Type 0 where
  pub endpoint : s.conf.endpoint ≡ is_client
  pub only_tls12 : s.conf.only_tls12 ≡ true
  pub renegotiation : s.conf.renegotiation ≡ false
  pub ciphersuites : s.conf.ciphersuites ≡ pinned_suites
  pub authmode : s.conf.authmode ≡ by_default
  pub fresh : IsFresh s

pub checked-Pinned : (r : Ret) (s : Setup) → IsFresh s → Ensures IsFresh (checked r s)
unfolding checked
checked-Pinned success s f = f
checked-Pinned (positive n) s f = ((λ e. cc), f.free, f.idle)
checked-Pinned (negative n) s f = ((λ e. cc), f.free, f.idle)

pub IsFresh-IsCounted : (s : Setup) → IsFresh s → IsCounted s
IsFresh-IsCounted s f =
    ground
      (arith, f.free.ca, f.free.cert, f.free.key, f.free.ca_chain, f.free.own_cert, f.free.flags)

pub pin-Pinned : (s : Setup) → IsFresh s → Pinned (pin is_client s)
unfolding pin
pin-Pinned s f = record {
  endpoint = refl;
  only_tls12 = refl;
  renegotiation = refl;
  ciphersuites = refl;
  authmode = refl;
  fresh = record {
    free = record {
      ca = f.free.ca;
      cert = f.free.cert;
      key = f.free.key;
      ca_chain = f.free.ca_chain;
      own_cert = f.free.own_cert;
      flags = f.free.flags;
    };
    idle = f.idle;
  };
}
