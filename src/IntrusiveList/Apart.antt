-- ===== src/IntrusiveList/Apart.antt =====
-- Lists of nodes that share none, for the loop of `remove_if`.
use async_tcp.Prelude.{
  ℕ, ◌≡◌, refl, ap, true, false, List, [], ◌∷◌, ◌++◌, inl, inr, arith, ◌==◌, Bool-cases,
}
use async_tcp.IntrusiveList.Chain.{has, Distinct, has-append}

-- Every node of the first list is not one of the second.
abbrev pub Apart : List ℕ → List ℕ → Type 0
Apart [] ys = Unit {0}
Apart (x ∷ xs) ys = (has x ys ≡ false) × Apart xs ys

pub Apart-weaken :
    (xs ys zs : List ℕ)
    → ((z : ℕ) → has z ys ≡ false → has z zs ≡ false)
    → Apart xs ys
    → Apart xs zs
Apart-weaken [] ys zs h a = tt
Apart-weaken (x ∷ xs) ys zs h a = (h x a.0, Apart-weaken xs ys zs h a.1)

Apart-nil : (xs : List ℕ) → Apart xs []
Apart-nil [] = tt
Apart-nil (x ∷ xs) = (refl, Apart-nil xs)

Apart-cons :
    (xs : List ℕ) (y : ℕ) (ys : List ℕ) → has y xs ≡ false → Apart xs ys → Apart xs (y ∷ ys)
Apart-cons [] y ys h a = tt
Apart-cons (x ∷ xs) y ys h a = (ground (arith, a.0), Apart-cons xs y ys (ground arith) a.1)

pub not-has_of_Apart : (xs ys : List ℕ) (z : ℕ) → Apart xs ys → has z ys ≡ true → has z xs ≡ false
not-has_of_Apart [] ys z a h = refl
not-has_of_Apart (x ∷ xs) ys z a h = elim (Bool-cases (z == x)) [
  | inl same ↦ let e : z ≡ x = ground arith in absurd (ground (arith, ap (λ w. has w ys) e))
  | inr other ↦ rw other (not-has_of_Apart xs ys z a.1 h)
]

pub has_mid : (front : List ℕ) (x : ℕ) (back : List ℕ) → has x (front ++ x ∷ back) ≡ true
has_mid [] x back = ground arith
has_mid (y ∷ ys) x back = ground (arith, has_mid ys x back)

module _ (z : ℕ) (front : List ℕ) (x : ℕ) (back : List ℕ) where
  pub not-has_drop : has z (front ++ x ∷ back) ≡ false → has z (front ++ back) ≡ false
  not-has_drop h = ground (arith, has-append z front (x ∷ back), has-append z front back)

  pub not-has_front : has z (front ++ x ∷ back) ≡ false → has z front ≡ false
  not-has_front h = ground (arith, has-append z front (x ∷ back))

pub Distinct-mid :
    (front : List ℕ) (x : ℕ) (back : List ℕ)
    → Distinct (front ++ x ∷ back)
    → has x (front ++ back) ≡ false
Distinct-mid [] x back d = d.0
Distinct-mid (y ∷ ys) x back d =
    ground (arith, has-append y ys (x ∷ back), Distinct-mid ys x back d.1)

pub Distinct-drop :
    (front : List ℕ) (x : ℕ) (back : List ℕ)
    → Distinct (front ++ x ∷ back)
    → Distinct (front ++ back)
Distinct-drop [] x back d = d.1
Distinct-drop (y ∷ ys) x back d = (not-has_drop y ys x back d.0, Distinct-drop ys x back d.1)

pub Distinct-Apart : (front back : List ℕ) → Distinct (front ++ back) → Apart back front
Distinct-Apart [] back d = Apart-nil back
Distinct-Apart (y ∷ ys) back d =
    Apart-cons back y ys (ground (arith, has-append y ys back)) (Distinct-Apart ys back d.1)
