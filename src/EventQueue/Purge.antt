-- ===== src/EventQueue/Purge.antt =====
-- `_remove_events_for_client`, and the intrusive list below it.
use mathlib.Core.List.{reverse}
use async_tcp.Prelude.{
  ℕ, ◌+◌, ◌<◌, ◌≡◌, refl, ap, ◌≢◌, List, [], ◌∷◌, inl, inr, arith, ◌==◌, if◌then◌else◌, length, map,
  Bool-cases,
}
use async_tcp.IntrusiveList.{Store, remove_if}
use async_tcp.IntrusiveList.Chain.{IsList}
use async_tcp.IntrusiveList.Remove.{Removed, kept, met, remove_if-kept}
use async_tcp.EventQueue.{Packet, Queue, purge, count_for, remove_events_for_client}

-- The packets of one client, in order.
abbrev pub events_of : ℕ → List Packet → List Packet
events_of c [] = []
events_of c (p ∷ ps) = if p.impl == c then p ∷ events_of c ps else events_of c ps

events_of-purge : (client : ℕ) (ps : List Packet) → events_of client (purge client ps) ≡ []
unfolding purge
events_of-purge client [] = refl
events_of-purge client (p ∷ ps) = ground (arith, events_of-purge client ps)

events_of-purge_ne :
    (client c : ℕ) (ps : List Packet) → c ≢ client → events_of c (purge client ps) ≡ events_of c ps
unfolding purge
events_of-purge_ne client c [] h = refl
events_of-purge_ne client c (p ∷ ps) h = ground (arith, events_of-purge_ne client c ps h)

count_for-length :
    (client : ℕ) (ps : List Packet) → count_for client ps + length (purge client ps) ≡ length ps
unfolding purge count_for
count_for-length client [] = omega arith
count_for-length client (p ∷ ps) = ground (arith, count_for-length client ps)

-- After `_remove_events_for_client` the queue holds no event of the client, those of every other
-- client are all there in their order, and the value returned is the number of packets freed.
pub remove_events_for_client_lem :
    (client : ℕ) (q : Queue)
    → let r = remove_events_for_client client q in
      (events_of client r.1.packets ≡ [])
      × ((c : ℕ) → c ≢ client → events_of c r.1.packets ≡ events_of c q.packets)
      × (r.0 + length r.1.packets ≡ length q.packets)
unfolding remove_events_for_client
remove_events_for_client_lem client q = (
  events_of-purge client q.packets,
  λ c h. events_of-purge_ne client c q.packets h,
  count_for-length client q.packets,
)

purge-map :
    (client : ℕ) (at : ℕ → Packet) (xs : List ℕ)
    → map at (kept (λ a. (at a).impl == client) xs) ≡ purge client (map at xs)
unfolding purge
purge-map client at [] = refl
purge-map client at (x ∷ xs) = elim (Bool-cases ((at x).impl == client)) [
  | inl meets ↦ rw meets (purge-map client at xs)
  | inr spared ↦ rw spared (ap (◌∷◌ (at x)) (purge-map client at xs))
]

-- On an intrusive list in order, where `at` is the packet at a node's address, `remove_if` with
-- the client's test leaves a list in order whose packets are the purged ones, on fuel beyond its
-- length.
pub remove_if-purge :
    (client : ℕ) (at : ℕ → Packet) (k : ℕ) (s : Store) (xs : List ℕ)
    → IsList s xs
    → length xs < k
    → (nodes : List ℕ) × Removed
        (remove_if (λ a. (at a).impl == client) k s)
        nodes
        (reverse (met (λ a. (at a).impl == client) xs))
      × (map at nodes ≡ purge client (map at xs))
remove_if-purge client at k s xs l h = (
  kept (λ a. (at a).impl == client) xs,
  remove_if-kept (λ a. (at a).impl == client) k s xs l h,
  purge-map client at xs,
)
