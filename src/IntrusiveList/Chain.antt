-- ===== src/IntrusiveList/Chain.antt =====
-- What a list object stands for: a chain of distinct nodes, with the tail and the size in order.
use async_tcp.Prelude.{
  ℕ, ◌≡◌, refl, ap, ◌∙◌, ◌≢◌, Bool, false, ◌||◌, List, [], ◌∷◌, ◌++◌, arith, ◌==◌, length,
}
use async_tcp.IntrusiveList.{Slot, head_slot, next_slot, Store, update, load, store}

abbrev pub has : ℕ → List ℕ → Bool
has a [] = false
has a (x ∷ xs) = (a == x) || has a xs

abbrev pub Distinct : List ℕ → Type 0
Distinct [] = Unit {0}
Distinct (x ∷ xs) = (has x xs ≡ false) × Distinct xs

-- From `p` the `next` fields lead through exactly these nodes to null.
abbrev pub Chain : (ℕ → ℕ) → ℕ → List ℕ → Type 0
Chain next p [] = p ≡ 0
Chain next p (x ∷ xs) = (p ≡ x) × (x ≢ 0) × Chain next (next x) xs

-- The slot that ends a list: the last node's `next` field, or `_head`.
abbrev pub last_of : ℕ → List ℕ → ℕ
last_of x [] = x
last_of x (y ∷ ys) = last_of y ys

abbrev pub last_slot : List ℕ → Slot
last_slot [] = head_slot
last_slot (x ∷ xs) = next_slot (last_of x xs)

pub record IsList (s : Store) (xs : List ℕ) : Type 0 where
  pub chain : Chain s.next s.head xs
  pub distinct : Distinct xs
  pub tail : s.tail ≡ last_slot xs
  pub size : s.size ≡ length xs

pub Chain-frame :
    (next : ℕ → ℕ) (a b p : ℕ) (xs : List ℕ)
    → has a xs ≡ false
    → Chain next p xs
    → Chain (update next a b) p xs
Chain-frame next a b p [] out c = c
Chain-frame next a b p (x ∷ xs) out c =
    let e : update next a b x ≡ next x = ground arith in
    (c.0, c.1, rw e (Chain-frame next a b (next x) xs (ground arith) c.2))

pub has-append : (a : ℕ) (xs ys : List ℕ) → has a (xs ++ ys) ≡ (has a xs || has a ys)
has-append a [] ys = refl
has-append a (x ∷ xs) ys = ground (arith, has-append a xs ys)

last_of-append :
    (x : ℕ) (xs : List ℕ) (y : ℕ) (ys : List ℕ) → last_of x (xs ++ y ∷ ys) ≡ last_of y ys
last_of-append x [] y ys = refl
last_of-append x (z ∷ zs) y ys = last_of-append z zs y ys

pub last_slot-append :
    (xs : List ℕ) (y : ℕ) (ys : List ℕ) → last_slot (xs ++ y ∷ ys) ≡ last_slot (y ∷ ys)
last_slot-append [] y ys = refl
last_slot-append (x ∷ xs) y ys = ap next_slot (last_of-append x xs y ys)

pub ne_last : (x y : ℕ) (ys : List ℕ) → has x (y ∷ ys) ≡ false → (x == last_of y ys) ≡ false
ne_last x y [] out = ground arith
ne_last x y (z ∷ zs) out = ne_last x z zs (ground arith)

pub Distinct-append_left : (xs ys : List ℕ) → Distinct (xs ++ ys) → Distinct xs
Distinct-append_left [] ys d = tt
Distinct-append_left (x ∷ xs) ys d =
    (ground (arith, has-append x xs ys), Distinct-append_left xs ys d.1)

-- The nodes from the slot behind `xs` on.
abbrev pub slot_after : (ℕ → ℕ) → ℕ → List ℕ → ℕ
slot_after next p [] = p
slot_after next p (x ∷ xs) = slot_after next (next x) xs

pub Chain-after :
    (next : ℕ → ℕ) (p : ℕ) (xs ys : List ℕ)
    → Chain next p (xs ++ ys)
    → Chain next (slot_after next p xs) ys
Chain-after next p [] ys c = c
Chain-after next p (x ∷ xs) ys c = Chain-after next (next x) xs ys c.2

next-last_of :
    (next : ℕ → ℕ) (x : ℕ) (xs : List ℕ) → next (last_of x xs) ≡ slot_after next (next x) xs
next-last_of next x [] = refl
next-last_of next x (y ∷ ys) = next-last_of next y ys

pub load-last_slot : (s : Store) (xs : List ℕ) → load s (last_slot xs) ≡ slot_after s.next s.head xs
load-last_slot s [] = refl
load-last_slot s (x ∷ xs) = next-last_of s.next x xs

splice_next :
    (next : ℕ → ℕ) (x : ℕ) (xs ys zs : List ℕ) (q : ℕ)
    → Distinct (x ∷ xs)
    → Chain next (next x) (xs ++ ys)
    → Chain (update next (last_of x xs) q) q zs
    → Chain (update next (last_of x xs) q) (update next (last_of x xs) q x) (xs ++ zs)
splice_next next x [] ys zs q d c e = let h : update next x q x ≡ q = ground arith in rw h e
splice_next next x (y ∷ xs) ys zs q d c e =
    let h : update next (last_of y xs) q x ≡ next x = ground (arith, ne_last x y xs d.0) in
    (h ∙ c.0, c.1, splice_next next y xs ys zs q d.1 c.2 e)

-- Writing the slot behind `xs` exchanges what follows.
pub splice :
    (s : Store) (xs ys zs : List ℕ) (q : ℕ)
    → Distinct xs
    → Chain s.next s.head (xs ++ ys)
    → Chain (store s (last_slot xs) q).next q zs
    → Chain (store s (last_slot xs) q).next (store s (last_slot xs) q).head (xs ++ zs)
splice s [] ys zs q d c e = e
splice s (x ∷ xs) ys zs q d c e = (c.0, c.1, splice_next s.next x xs ys zs q d c.2 e)
