-- ===== src/Engine/Ring/Window.antt =====
-- The slots of the ring from one on, going round, and what a write to a slot does to them.
use async_tcp.Prelude.{
  ℕ, zero, suc, ◌+◌, ◌-◌, ◌%◌, ◌^◌, ◌≤◌, ◌<◌, ◌≡◌, ◌≢◌, refl, sym, ap, ◌∙◌, List, [], ◌∷◌, ◌++◌,
  arith, ==_refl, ==_ne,
}
use native.Mathlib.Nat.{mod-add-mod, mod-eq_of_lt, mod-eq-sub-mod, mod-lt}
use mathlib.Core.Path.{ap₂}
use native.Mathlib.Decide.{dec_lt}
use async_tcp.Engine.Ring.{set_at}

module _ {ℓ} {A : Type ℓ} (slots : ℕ) (a : ℕ → A) where
  -- The `n` entries from `h` on.
  abbrev pub window : ℕ → ℕ → List A
  window h zero = []
  window h (suc n) = a h ∷ window ((h + 1) % slots) n

module _ (slots : ℕ) where
  step_round : (h n : ℕ) → ((h + 1) % slots + n) % slots ≡ (h + suc n) % slots
  step_round h n = mod-add-mod (h + 1) slots n ∙ ap (λ k. k % slots) (omega arith)

  -- Fewer than all slots round the ring do not come back to the start.
  round-ne : (h k : ℕ) → h < slots → suc k < slots → (h + suc k) % slots ≢ h
  round-ne h k hh hk = elim (dec_lt (h + suc k) slots) [
    | yes p ↦ omega (arith, mod-eq_of_lt p)
    | no p ↦ omega (
      arith,
      mod-eq-sub-mod {n = h + suc k} {m = slots} (omega arith),
      mod-eq_of_lt {n = h + suc k - slots} {m = slots} (omega arith),
    )
  ]

  round : (h i n : ℕ) → i ≡ (h + suc n) % slots → i ≡ ((h + 1) % slots + n) % slots
  round h i n e = e ∙ sym (step_round h n)

  set-ne {ℓ} : {A : Type ℓ} (a : ℕ → A) (i j : ℕ) (x : A) → j ≢ i → set_at a i x j ≡ a j
  set-ne a i j x h = rw (==_ne j i h) refl

  pub set_self {ℓ} : {A : Type ℓ} (a : ℕ → A) (i : ℕ) (x : A) → set_at a i x i ≡ x
  set_self a i x = rw (==_refl i) refl

  round-lt : (h k : ℕ) → h < slots → (h + k) % slots < slots
  round-lt h k p = mod-lt (h + k) (omega arith)

  -- Writing just past a window extends it.
  pub window-set {ℓ} :
      {A : Type ℓ} (a : ℕ → A) (x : A) (n h i : ℕ)
      → h < slots
      → n < slots
      → i ≡ (h + n) % slots
      → window slots (set_at a i x) h (suc n) ≡ window slots a h n ++ (x ∷ [])
  window-set a x zero h i hh hn e =
      let same : h ≡ i = sym (e ∙ ap (λ k. k % slots) (omega arith) ∙ mod-eq_of_lt hh) in
      ap (λ y. y ∷ []) (ap (set_at a i x) same ∙ set_self a i x)
  window-set a x (suc n) h i hh hn e =
      let other : h ≢ i = λ q. round-ne h n hh hn (sym (q ∙ e)) in
      ap₂ ◌∷◌ (set-ne a i h x other)
        (window-set a x n ((h + 1) % slots) i (round-lt h 1 hh) (omega arith) (round h i n e))

  -- Writing further on leaves it.
  pub window-set_past {ℓ} :
      {A : Type ℓ} (a : ℕ → A) (x : A) (n j h i : ℕ)
      → h < slots
      → n + j < slots
      → i ≡ (h + (n + j)) % slots
      → window slots (set_at a i x) h n ≡ window slots a h n
  window-set_past a x zero j h i hh hn e = refl
  window-set_past a x (suc n) j h i hh hn e =
      let f : i ≡ (h + suc (n + j)) % slots = e ∙ ap (λ k. (h + k) % slots) (omega arith) in
      let other : h ≢ i = λ q. round-ne h (n + j) hh (omega arith) (sym (q ∙ f)) in
      ap₂ ◌∷◌ (set-ne a i h x other) (
        window-set_past a x n j ((h + 1) % slots) i (round-lt h 1 hh) (omega arith)
          (round h i (n + j) f))

  -- The slot that the next record goes to is the one past the window, and the window starts at
  -- the same slot after it is filled, and one further on after its first one is released.
  pub past_window :
      (next n : ℕ) → next < slots → n ≤ slots → next ≡ ((next + slots - n) % slots + n) % slots
  past_window next n hn hp = sym (
      mod-add-mod (next + slots - n) slots n
      ∙ ap (λ k. k % slots) (omega arith)
      ∙ mod-eq-sub-mod {n = next + slots} {m = slots} (omega arith)
      ∙ ap (λ k. k % slots) (omega arith)
      ∙ mod-eq_of_lt hn)

  pub start_filled :
      (next n : ℕ)
      → n < slots
      → ((next + 1) % slots + slots - (n + 1)) % slots ≡ (next + slots - n) % slots
  start_filled next n h =
      ap (λ k. k % slots) (omega arith)
      ∙ mod-add-mod (next + 1) slots (slots - (n + 1))
      ∙ ap (λ k. k % slots) (omega arith)

  pub start_released :
      (next n : ℕ)
      → suc n ≤ slots
      → (next + slots - n) % slots ≡ ((next + slots - suc n) % slots + 1) % slots
  start_released next n h =
      sym (mod-add-mod (next + slots - suc n) slots 1 ∙ ap (λ k. k % slots) (omega arith))

  -- A byte holds the number of a slot.
  pub slot_byte : (k : ℕ) → 0 < slots → slots < 2 ^ 8 → k % slots % 2 ^ 8 ≡ k % slots
  slot_byte k p q = mod-eq_of_lt (omega (arith, mod-lt k p))
