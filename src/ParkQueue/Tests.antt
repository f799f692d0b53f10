-- ===== src/ParkQueue/Tests.antt =====
-- Runs of the pool and of the queue of parked connections, and their theorems at concrete inputs.
use async_tcp.Prelude.{ℕ, ◌+◌, ◌≡◌, refl, ◌≢◌, false, some, [], ◌∷◌, arith}
use async_tcp.IntrusiveList.{update}
use async_tcp.IntrusiveList.Chain.{has, Chain}
use async_tcp.ParkQueue.{Pool, park_alloc, park_loop}
use async_tcp.ParkQueue.Alloc.{park_alloc-none}
use async_tcp.ParkQueue.Unlink.{unlink, unlink_walk, unlink_pending, unlink_pending-Chain}

-- The slots 5, 2 and 6 in a row.
abbrev links : ℕ → ℕ
links = update (update (λ _. 0) 5 2) 2 6

unlink_test : unlink_pending 4 links 5 2 ≡ some (5, update links 5 6)
unfolding unlink_pending unlink_walk
unlink_test = refl

unlink_pending-Chain_example :
    (head : ℕ) × (next : ℕ → ℕ) × (unlink_pending 4 links 5 2 ≡ some (head, next))
    × Chain next head (unlink 2 (5 ∷ 2 ∷ 6 ∷ []))
    × ((a : ℕ) → has a (5 ∷ 2 ∷ 6 ∷ []) ≡ false → next a ≡ links a)
unlink_pending-Chain_example =
    unlink_pending-Chain 4 links 5 (5 ∷ 2 ∷ 6 ∷ []) 2 (omega arith) (refl, (refl, (refl, tt)))
      (omega arith) (ground arith)

-- A pool with every slot taken.
abbrev crowded : Pool
crowded = record {
  slots = λ i. record { pcb = 90 + i; pb = []; pb_len = 0; parked_ms = 0 };
  idx = 2;
}

park_alloc-none_test : (crowded.slots 4).pcb ≢ 0
unfolding park_alloc park_loop
park_alloc-none_test = park_alloc-none crowded 4 (omega arith) refl (omega arith)
