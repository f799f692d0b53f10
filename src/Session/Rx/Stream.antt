-- ===== src/Session/Rx/Stream.antt =====
-- `feedRx` and `read` together: the buffer and the held chain are one queue of bytes.
use async_tcp.Prelude.{
  ℕ, ◌+◌, ◌≤◌, ◌<◌, ◌≡◌, refl, ap, ◌∙◌, sym, none, some, List, [], ◌∷◌, ◌++◌, ◌⊎◌, inl, inr, arith,
  length, length-append, Bool-cases, append-nil, append_assoc,
}
use async_tcp.Session.Rx.{
  Bio, Session, Allocator, rx_buf_max, feed, feed_rx_data, take_out, read, drain, feed_rx, wrap,
  wrap_bytes,
}
use async_tcp.Session.Rx.Content.{IsValid, content}
use async_tcp.Session.Rx.Feed.{feed-Fed, feed_refused, take_out-content}

-- The bytes of a chain.
abbrev pub flat : List (List ℕ) → List ℕ
flat [] = []
flat (p ∷ ps) = p ++ flat ps

pub flat-append : (ps qs : List (List ℕ)) → flat (ps ++ qs) ≡ flat ps ++ flat qs
flat-append [] qs = refl
flat-append (p ∷ ps) qs = rw (flat-append ps qs, append_assoc)

-- A chunk that the buffer cannot take: no room under the cap, or no memory.
abbrev pub NoRoom : Allocator → Bio → List ℕ → Type 0
NoRoom a b p =
    (rx_buf_max < length (content b) + length p)
    ⊎ ((old : List ℕ) × (need : ℕ) × (need ≤ rx_buf_max) × (a.realloc old need ≡ none))

-- What is held is nothing, or starts with a pbuf that the buffer cannot take.
abbrev pub Held : Allocator → Bio → List (List ℕ) → Type 0
Held a b ps = (ps ≡ []) ⊎ ((p : List ℕ) × (rest : List (List ℕ)) × (ps ≡ p ∷ rest) × NoRoom a b p)

-- The outcome of a feed from the stream `before` and the count `total`.
pub record Drained (a : Allocator) (before : List ℕ) (total : ℕ) (r : ℕ × Session) : Type 0 where
  pub bio : Bio
  pub has_bio : r.1.bio ≡ some bio
  pub valid : IsValid bio
  pub stream : content bio ++ flat r.1.pending_pbufs ≡ before
  pub acked : r.0 + length (flat r.1.pending_pbufs) ≡ total
  pub held : Held a bio r.1.pending_pbufs

module _ (a : Allocator) where
  Drained-cast :
      {before after : List ℕ} {m n : ℕ} {r : ℕ × Session}
      → before ≡ after
      → m ≡ n
      → Drained a before m r
      → Drained a after n r
  Drained-cast e f d = record {
    bio = d.bio;
    has_bio = d.has_bio;
    valid = d.valid;
    stream = d.stream ∙ e;
    acked = d.acked ∙ f;
    held = d.held;
  }

  drain-Drained :
      (b : Bio) (ps : List (List ℕ)) (total : ℕ)
      → IsValid b
      → Drained a (content b ++ flat ps) (total + length (flat ps)) (drain a (some b) ps total)
  unfolding drain feed_rx_data wrap
  drain-Drained b [] total v = record {
    bio = b;
    has_bio = refl;
    valid = v;
    stream = refl;
    acked = refl;
    held = inl refl;
  }
  drain-Drained b (p ∷ ps) total v =
      let f = feed-Fed a b p v in
      let b' = (feed a b p).1 in
      elim (Bool-cases (feed a b p).0) [
        | inl done ↦ rw done (
            Drained-cast (rw (f.accepted done) (append_assoc (content b) p (flat ps)))
              (omega (arith, length-append p (flat ps)))
              (drain-Drained b' ps (total + length p) f.valid))
        | inr full ↦ rw full (record {
          bio = b';
          has_bio = refl;
          valid = f.valid;
          stream = ap (λ bs. bs ++ (p ++ flat ps)) (f.refused full);
          acked = refl;
          held = inr (p, ps, refl, rw (f.refused full) (feed_refused a b p v full));
        })
      ]

  -- With a buffer in order, after `feedRx` the bytes unread and held are those from before and the
  -- new ones, in order; the count acknowledged is what left the chain; and the chain is held only
  -- where the buffer has no room or no memory.
  pub feed_rx-Drained :
      (b : Bio) (s : Session) (pb : List (List ℕ))
      → s.bio ≡ some b
      → IsValid b
      → Drained a
          ((content b ++ flat s.pending_pbufs) ++ flat pb)
          (length (flat s.pending_pbufs) + length (flat pb))
          (feed_rx a s pb)
  unfolding feed_rx
  feed_rx-Drained b s pb e v = rw e (
      Drained-cast
        (rw (flat-append s.pending_pbufs pb)
          (sym (append_assoc (content b) (flat s.pending_pbufs) (flat pb))))
        (rw (flat-append s.pending_pbufs pb)
          (omega (arith, length-append (flat s.pending_pbufs) (flat pb))))
        (drain-Drained b (s.pending_pbufs ++ pb) 0 v))

-- What lwIP and mbedTLS do to a session: deliver a chain, or pull up to n bytes.
pub data Call : Type 0 where
  feeds : List (List ℕ) → Call
  reads : ℕ → Call

-- The bytes delivered to mbedTLS by a call, and the session after it.
unfoldable pub step : Allocator → Session → Call → List ℕ × Session
step a s (feeds pb) = ([], (feed_rx a s pb).1)
step a s (reads n) = let (bytes, b) = read s.bio n in (bytes, record s { bio = b })

unfoldable pub run : Allocator → Session → List Call → List ℕ × Session
run a s [] = ([], s)
run a s (c ∷ cs) = let (bytes, t) = step a s c in let (more, u) = run a t cs in (bytes ++ more, u)

-- The bytes that the calls bring in.
abbrev pub arrives : Call → List ℕ
arrives (feeds pb) = flat pb
arrives (reads n) = []

abbrev pub fed : List Call → List ℕ
fed [] = []
fed (c ∷ cs) = arrives c ++ fed cs

-- The session has a buffer in order, and these bytes wait in it and behind it.
pub record Holds (s : Session) (bytes : List ℕ) : Type 0 where
  pub bio : Bio
  pub has_bio : s.bio ≡ some bio
  pub valid : IsValid bio
  pub stream : content bio ++ flat s.pending_pbufs ≡ bytes

module _ (a : Allocator) where
  step-Holds :
      (s : Session) (c : Call) (bytes : List ℕ)
      → Holds s bytes
      → (rest : List ℕ) × Holds (step a s c).1 rest × ((step a s c).0 ++ rest ≡ bytes ++ arrives c)
  unfolding step read
  step-Holds s (feeds pb) bytes h =
      let d = feed_rx-Drained a h.bio s pb h.has_bio h.valid in
      (
        bytes ++ flat pb,
        record {
          bio = d.bio;
          has_bio = d.has_bio;
          valid = d.valid;
          stream = d.stream ∙ ap (λ bs. bs ++ flat pb) h.stream;
        },
        refl,
      )
  step-Holds s (reads n) bytes h =
      let t = take_out-content h.bio h.valid n in
      let b' = (take_out h.bio n).1 in
      (
        content b' ++ flat s.pending_pbufs,
        record { bio = b'; has_bio = rw (h.has_bio, read, wrap_bytes); valid = t.2; stream = refl },
        rw (h.has_bio, read, wrap_bytes)
            (sym (append_assoc (take_out h.bio n).0 (content b') (flat s.pending_pbufs))
              ∙ ap (λ bs. bs ++ flat s.pending_pbufs) t.0
              ∙ h.stream
              ∙ sym (append-nil bytes)),
      )

  -- From a session whose buffer is in order, whatever the order of deliveries and reads, what
  -- `read` gave, followed by what still waits in the session, is what waited before and what
  -- arrived since, byte for byte and in order; the buffer stays in order.
  pub run-stream :
      (s : Session) (cs : List Call) (bytes : List ℕ)
      → Holds s bytes
      → (rest : List ℕ) × Holds (run a s cs).1 rest × ((run a s cs).0 ++ rest ≡ bytes ++ fed cs)
  unfolding run
  run-stream s [] bytes h = (bytes, h, sym (append-nil bytes))
  run-stream s (c ∷ cs) bytes h =
      let (mid, hm, em) = step-Holds s c bytes h in
      let (rest, hr, er) = run-stream (step a s c).1 cs mid hm in
      (
        rest,
        hr,
        append_assoc (step a s c).0 _ rest
            ∙ ap (λ bs. (step a s c).0 ++ bs) er
            ∙ sym (append_assoc (step a s c).0 mid (fed cs))
            ∙ ap (λ bs. bs ++ fed cs) em
            ∙ append_assoc bytes (arrives c) (fed cs),
      )
