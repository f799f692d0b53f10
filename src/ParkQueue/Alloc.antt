-- ===== src/ParkQueue/Alloc.antt =====
-- `park_alloc` finds a free slot whenever there is one.
use async_tcp.Prelude.{
  ℕ, zero, suc, ◌+◌, ◌-◌, ◌%◌, ◌<◌, ◌≡◌, refl, ◌≢◌, none, some, inl, inr, arith, ◌==◌, Bool-cases,
}
use async_tcp.ParkQueue.{Pool, parked_slots, park_loop, park_alloc}

-- A slot that is found is free and in the pool.
park_loop_found :
    (k : ℕ) (p : Pool) (i : ℕ)
    → p.idx < parked_slots
    → (park_loop k p).0 ≡ some i
    → ((p.slots i).pcb ≡ 0) × (i < parked_slots)
unfolding park_loop
park_loop_found zero p i h e = cc
park_loop_found (suc k) p i h e = elim (Bool-cases ((p.slots p.idx).pcb == 0)) [
  | inl free ↦ let f : p.idx ≡ i = ground arith in rw (← f) (ground arith, h)
  | inr busy ↦
      park_loop_found k (record p { idx = (p.idx + 1) % parked_slots }) i (omega arith)
        (rw busy at e)
]

park_loop-none :
    (k : ℕ) (p : Pool) (j : ℕ)
    → p.idx < parked_slots
    → (park_loop k p).0 ≡ none
    → j < k
    → (p.slots ((p.idx + j) % parked_slots)).pcb ≢ 0
unfolding park_loop
park_loop-none zero p j h e lt = absurd (omega arith)
park_loop-none (suc k) p zero h e lt =
    let f : (p.idx + 0) % parked_slots ≡ p.idx = omega arith in rw f (ground arith)
park_loop-none (suc k) p (suc j) h e lt = elim (Bool-cases ((p.slots p.idx).pcb == 0)) [
  | inl free ↦ absurd (ground arith)
  | inr busy ↦
      let q = record p { idx = (p.idx + 1) % parked_slots } in
      let f : (p.idx + suc j) % parked_slots ≡ (q.idx + j) % parked_slots = omega arith in
      rw f (park_loop-none k q j (omega arith) (rw busy at e) (omega arith))
]

-- When `park_alloc` finds no slot, from an index in range, every slot is taken.
pub park_alloc-none :
    (p : Pool) (i : ℕ)
    → p.idx < parked_slots
    → (park_alloc p).0 ≡ none
    → i < parked_slots
    → (p.slots i).pcb ≢ 0
unfolding park_alloc
park_alloc-none p i h e lt =
    let j : ℕ = (i + parked_slots - p.idx) % parked_slots in
    let f : (p.idx + j) % parked_slots ≡ i = omega arith in
    rw (← f) (park_loop-none parked_slots p j h e (omega arith))

pub park_alloc-some :
    (p : Pool) (i : ℕ)
    → p.idx < parked_slots
    → (park_alloc p).0 ≡ some i
    → ((p.slots i).pcb ≡ 0) × (i < parked_slots)
unfolding park_alloc
park_alloc-some p i h e = park_loop_found parked_slots p i h e

park_loop_frame :
    (k : ℕ) (p : Pool)
    → p.idx < parked_slots
    → ((i : ℕ) → (park_loop k p).1.slots i ≡ p.slots i) × ((park_loop k p).1.idx < parked_slots)
unfolding park_loop
park_loop_frame zero p h = (λ i. refl, h)
park_loop_frame (suc k) p h = elim (Bool-cases ((p.slots p.idx).pcb == 0)) [
  | inl free ↦ rw free (λ i. refl, omega arith)
  | inr busy ↦
      rw busy (park_loop_frame k (record p { idx = (p.idx + 1) % parked_slots }) (omega arith))
]

-- Looking for a slot moves `pool_idx` alone, within the pool.
pub park_alloc-frame :
    (p : Pool)
    → p.idx < parked_slots
    → ((i : ℕ) → (park_alloc p).1.slots i ≡ p.slots i) × ((park_alloc p).1.idx < parked_slots)
unfolding park_alloc
park_alloc-frame p h = park_loop_frame parked_slots p h
