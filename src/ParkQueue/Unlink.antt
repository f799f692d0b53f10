-- ===== src/ParkQueue/Unlink.antt =====
-- `unlink_pending`, on the pointers and on the queue for which they stand. Here the address of the
-- slot with index i is i + 1, and 0 is null, as for the nodes of IntrusiveList.
use async_tcp.Prelude.{
  ℕ, zero, suc, ◌<◌, ◌≡◌, refl, ◌∙◌, ◌≢◌, true, false, ◌||◌, ◌&&◌, not, Option, none, some, List,
  [], ◌∷◌, inl, inr, arith, ◌==◌, ==_ne, if◌then◌else◌, length, Bool-cases,
}
use async_tcp.IntrusiveList.{update}
use async_tcp.IntrusiveList.Chain.{has, Distinct, Chain, Chain-frame}

-- The walk to the slot in front of `p`, and the write that follows it; `none` when the fuel runs
-- out.
unfoldable pub unlink_walk : ℕ → (ℕ → ℕ) → ℕ → ℕ → Option (ℕ → ℕ)
unlink_walk zero next cur p = none
unlink_walk (suc k) next cur p =
    let rest = unlink_walk k next (next cur) p in
    if not (next cur == 0) && not (next cur == p)
    then rest
    else (if next cur == 0 then some next else some (update next cur (next p)))

-- The new head and the new `next` fields. `*headptr` is `head`.
unfoldable pub unlink_pending : ℕ → (ℕ → ℕ) → ℕ → ℕ → Option (ℕ × (ℕ → ℕ))
unlink_pending k next head p =
    if (head == 0) || (p == 0)
    then some (head, next)
    else (if head == p
        then some (next p, next)
        else elim (unlink_walk k next head p) [ none ↦ none | some next' ↦ some (head, next') ])

-- The queue without its first entry for `p`.
unfoldable pub unlink : ℕ → List ℕ → List ℕ
unlink p [] = []
unlink p (x ∷ xs) = if x == p then xs else x ∷ unlink p xs

pub has-unlink_ne : (a p : ℕ) (xs : List ℕ) → a ≢ p → has a (unlink p xs) ≡ has a xs
unfolding unlink
has-unlink_ne a p [] h = refl
has-unlink_ne a p (x ∷ xs) h = ground (arith, has-unlink_ne a p xs h)

pub has-unlink_self : (p : ℕ) (xs : List ℕ) → Distinct xs → has p (unlink p xs) ≡ false
unfolding unlink
has-unlink_self p [] d = refl
has-unlink_self p (x ∷ xs) d = elim (Bool-cases (x == p)) [
  | inl same ↦ let e : p ≡ x = ground arith in rw same (rw e d.0)
  | inr other ↦ rw other (ground (arith, has-unlink_self p xs d.1))
]

pub Distinct-unlink : (p : ℕ) (xs : List ℕ) → Distinct xs → Distinct (unlink p xs)
unfolding unlink
Distinct-unlink p [] d = tt
Distinct-unlink p (x ∷ xs) d = elim (Bool-cases (x == p)) [
  | inl same ↦ rw same d.1
  | inr other ↦ rw other (has-unlink_ne x p xs (ground arith) ∙ d.0, Distinct-unlink p xs d.1)
]

pub length-unlink : (p : ℕ) (xs : List ℕ) → has p xs ≡ true → suc (length (unlink p xs)) ≡ length xs
unfolding unlink
length-unlink p [] h = cc
length-unlink p (x ∷ xs) h = ground (arith, length-unlink p xs)

unlink_walk-Chain :
    (k : ℕ) (next : ℕ → ℕ) (x : ℕ) (xs : List ℕ) (p : ℕ)
    → length xs < k
    → has x xs ≡ false
    → Distinct xs
    → p ≢ 0
    → Chain next (next x) xs
    → (next' : ℕ → ℕ) × (unlink_walk k next x p ≡ some next')
      × Chain next' (next' x) (unlink p xs)
      × ((a : ℕ) → has a (x ∷ xs) ≡ false → next' a ≡ next a)
unfolding unlink_walk unlink
unlink_walk-Chain zero next x xs p h out d ne c = absurd (omega arith)
unlink_walk-Chain (suc k) next x [] p h out d ne c = (next, rw c, c, λ a o. refl)
unlink_walk-Chain (suc k) next x (y ∷ ys) p h out d ne c = elim (Bool-cases (y == p)) [
  | inl same ↦
      let e : y ≡ p = ground arith in
      let f : update next x (next p) x ≡ next y = ground arith in
      (
        update next x (next p),
        rw (c.0, ==_ne y 0 c.1, same),
        rw (same, f) (Chain-frame next x (next p) (next y) ys (ground arith) c.2),
        λ a o. ground arith,
      )
  | inr other ↦
      let (next', r, chain, frame) = unlink_walk-Chain k next y ys p (omega arith) d.0 d.1 ne c.2 in
      (
        next',
        rw (c.0, ==_ne y 0 c.1, other) r,
        rw other (frame x out ∙ c.0, c.1, chain),
        λ a o. frame a (ground arith),
      )
]

unlink_pending-go :
    (k : ℕ) (next : ℕ → ℕ) (x : ℕ) (xs : List ℕ) (p : ℕ)
    → length (x ∷ xs) < k
    → Distinct (x ∷ xs)
    → p ≢ 0
    → Chain next x (x ∷ xs)
    → (head' : ℕ) × (next' : ℕ → ℕ) × (unlink_pending k next x p ≡ some (head', next'))
      × Chain next' head' (unlink p (x ∷ xs))
      × ((a : ℕ) → has a (x ∷ xs) ≡ false → next' a ≡ next a)
unfolding unlink_pending unlink
unlink_pending-go k next x xs p h d ne c = elim (Bool-cases (x == p)) [
  | inl same ↦
      let e : x ≡ p = ground arith in
      (next p, next, rw (==_ne x 0 c.1, ==_ne p 0 ne, same), rw (same, ← e) c.2, λ a o. refl)
  | inr other ↦
      let (next', r, chain, frame) = unlink_walk-Chain k next x xs p (omega arith) d.0 d.1 ne c.2 in
      (x, next', rw (==_ne x 0 c.1, ==_ne p 0 ne, other, r), rw other (refl, c.1, chain), frame)
]

unlink_pending-nil :
    (k : ℕ) (next : ℕ → ℕ) (head p : ℕ)
    → head ≡ 0
    → unlink_pending k next head p ≡ some (head, next)
unfolding unlink_pending
unlink_pending-nil k next head p h = rw h

-- On a chain of distinct slots, `unlink_pending` for a slot that is not null leaves the chain of
-- the queue without that slot, and changes the pointer of no slot outside the chain. Fuel beyond
-- the length of the queue is enough.
pub unlink_pending-Chain :
    (k : ℕ) (next : ℕ → ℕ) (head : ℕ) (xs : List ℕ) (p : ℕ)
    → length xs < k
    → Distinct xs
    → p ≢ 0
    → Chain next head xs
    → (head' : ℕ) × (next' : ℕ → ℕ) × (unlink_pending k next head p ≡ some (head', next'))
      × Chain next' head' (unlink p xs)
      × ((a : ℕ) → has a xs ≡ false → next' a ≡ next a)
unfolding unlink
unlink_pending-Chain k next head [] p h d ne c =
    (head, next, unlink_pending-nil k next head p c, c, λ a o. refl)
unlink_pending-Chain k next head (x ∷ xs) p h d ne c =
    rw (c.0) (unlink_pending-go k next x xs p h d ne (refl, c.1, c.2))
