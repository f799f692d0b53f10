-- ===== src/Session/Rx/Tests.antt =====
-- Runs of the receive buffer, and its theorems at concrete inputs.
use async_tcp.Prelude.{
  ℕ, ◌-◌, ◌≡◌, refl, some, List, [], ◌∷◌, ◌++◌, arith, length, take, replicate, min, length-append,
  length-replicate, take-append, length-take,
}
use async_tcp.Session.Rx.{
  Bio, Session, Allocator, feed, feed_rx_data, take_out, read, feed_rx, advance, compact, put,
  store, drain, wrap,
}
use async_tcp.Session.Rx.Content.{IsValid, content}
use async_tcp.Session.Rx.Feed.{take_out-content}
use async_tcp.Session.Rx.Stream.{
  Drained, feed_rx-Drained, Holds, Call, feeds, reads, run, step, run-stream, fed,
}

grow : List ℕ → ℕ → List ℕ
grow b n = take n b ++ replicate (n - length b) 0

length-grow : (b : List ℕ) (n : ℕ) → length (grow b n) ≡ n
unfolding grow
length-grow b n =
    let zero_byte : ℕ = 0 in
    omega (
      arith,
      length-append (take n b) (replicate (n - length b) 0),
      length-take n b,
      length-replicate (n - length b) zero_byte,
    )

take-grow : (b : List ℕ) (n : ℕ) → take (min (length b) n) (grow b n) ≡ take n b
unfolding grow
take-grow b n = take-append (min (length b) n) (take n b) _ (omega (arith, length-take n b))

grow_size : (b : List ℕ) (n : ℕ) (c : List ℕ) → some (grow b n) ≡ some c → length c ≡ n
grow_size b n c e = let f : grow b n ≡ c = cc in rw (← f) (length-grow b n)

grow_keeps :
    (b : List ℕ) (n : ℕ) (c : List ℕ)
    → some (grow b n) ≡ some c
    → take (min (length b) n) c ≡ take n b
grow_keeps b n c e = let f : grow b n ≡ c = cc in rw (← f) (take-grow b n)

-- An allocator that always has memory.
abbrev ample : Allocator
ample = record {
  realloc = λ b n. some (grow b n);
  realloc_size = grow_size;
  realloc_keeps = grow_keeps;
}

-- A block of 4 bytes, 3 written, 2 of them read already.
abbrev bio : Bio
bio = record { buf = 1 ∷ 2 ∷ 3 ∷ 0 ∷ []; capacity = 4; len = 3; pos = 2 }

bio-IsValid : IsValid bio
bio-IsValid = record {
  size = refl;
  pos_le = omega arith;
  len_le = omega arith;
  capped = omega arith;
}

abbrev session : Session
session = record { bio = some bio; pending_pbufs = [] }

abbrev calls : List Call
calls = feeds ((4 ∷ 5 ∷ []) ∷ (6 ∷ 7 ∷ 8 ∷ []) ∷ []) ∷ reads 4 ∷ reads 9 ∷ []

-- The first chunk compacts the block, the second one grows it.
run_test : (run ample session calls).0 ≡ 3 ∷ 4 ∷ 5 ∷ 6 ∷ 7 ∷ 8 ∷ []
unfolding run step read take_out advance feed_rx drain feed_rx_data wrap feed store compact put grow
run_test = refl

session-Holds : Holds session (3 ∷ [])
session-Holds = record { bio = bio; has_bio = refl; valid = bio-IsValid; stream = refl }

run-stream_example :
    (rest : List ℕ) × Holds (run ample session calls).1 rest
    × ((run ample session calls).0 ++ rest ≡ 3 ∷ fed calls)
run-stream_example = run-stream ample session calls (3 ∷ []) session-Holds

feed_rx-Drained_example :
    Drained ample (3 ∷ 4 ∷ 5 ∷ 6 ∷ []) 3 (feed_rx ample session ((4 ∷ 5 ∷ []) ∷ (6 ∷ []) ∷ []))
feed_rx-Drained_example =
    feed_rx-Drained ample bio session ((4 ∷ 5 ∷ []) ∷ (6 ∷ []) ∷ []) refl bio-IsValid

take_out-content_test :
    ((take_out bio 4).0 ++ content (take_out bio 4).1 ≡ content bio)
    × (length (take_out bio 4).0 ≡ min 4 (length (content bio)))
    × IsValid (take_out bio 4).1
take_out-content_test = take_out-content bio bio-IsValid 4
