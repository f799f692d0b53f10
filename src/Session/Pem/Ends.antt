-- ===== src/Session/Pem/Ends.antt =====
-- The loops that read a PEM text end, and keep what their reader keeps.
use async_tcp.Prelude.{
  ℕ, zero, suc, ◌+◌, ◌*◌, ◌≤◌, ◌<◌, ◌≡◌, ◌⊎◌, inl, inr, refl, arith, Bool, true, not, ◌||◌, Option,
  none, some, List, [], ◌∷◌, ltb, length, length-drop, drop, if_holds,
}
use async_tcp.Session.Pem.{
  Event, begin_obj, end_obj, other, Decoder, Flow, continue, return, Reader, Turn, over, going,
  after_end, on_event, unless_failed, drain, appends, is_empty, go_on, loop,
}

-- A decoder that takes bytes of those offered and tells of at most one object's edge for each byte.
pub record IsLawful {P : Type 0} (d : Decoder P) (pending : P → ℕ) : Type 0 where
  pub takes : (p : P) (bytes : List ℕ) → (d.push p bytes).0 ≤ length bytes
  pub pends : (p : P) (bytes : List ℕ) → pending (d.push p bytes).2 ≤ pending p + (d.push p bytes).0
  pub tells :
      (p q : P) (e : Event)
      → d.event p ≡ (e, q)
      → (pending q < pending p) ⊎ ((e ≡ other) × (pending q ≤ pending p))

-- What a reader keeps, and what holds of all that it returns.
pub record Keeps {S R : Type 0} (r : Reader S R) (Inv : S → Type 0) (Good : R → Type 0)
    : Type 0 where
  pub append : (bytes : List ℕ) (s : S) → Inv s → Inv (r.append bytes s)
  pub failed : (s : S) (x : R) → r.failed s ≡ some x → Inv s → Good x
  pub begin : (name : List ℕ) (s : S) → Inv s → Inv (r.begin name s)
  pub continued : (s t : S) → r.end s ≡ continue t → Inv s → Inv t
  pub returned : (s : S) (x : R) → r.end s ≡ return x → Inv s → Good x

-- The loop is over, and what it leaves is kept.
abbrev pub Ended : {S R : Type 0} → (S → Type 0) → (R → Type 0) → Option (Flow S R) → Type 0
Ended Inv Good none = ⊥
Ended Inv Good (some (continue s)) = Inv s
Ended Inv Good (some (return x)) = Good x

module _ {P S R : Type 0} (d : Decoder P) (r : Reader S R) (pending : P → ℕ)
    (law : IsLawful d pending) (Inv : S → Type 0) (Good : R → Type 0)
    (keeps : Keeps r Inv Good) where
  -- The turn is there, and events were taken off where there was progress.
  abbrev Drained : ℕ → Bool → Option (Turn P S R) → Type 0
  Drained bound m none = ⊥
  Drained bound m (some (over x)) = Good x
  Drained bound m (some (going q t m')) =
      Inv t × (pending q ≤ bound) × ((m' ≡ m) ⊎ (pending q < bound))

  Drained-less :
      (b c : ℕ) (m : Bool) (t : Option (Turn P S R)) → c < b → Drained c true t → Drained b m t
  Drained-less b c m none h x = x
  Drained-less b c m (some (over y)) h x = x
  Drained-less b c m (some (going q t m')) h (inv, le, o) = (inv, omega arith, inr (omega arith))

  unless_failed-Drained :
      (b : ℕ) (m : Bool) (o : Option R) (t : Option (Turn P S R))
      → ((x : R) → o ≡ some x → Good x)
      → Drained b m t
      → Drained b m (unless_failed d r o t)
  unfolding unless_failed
  unless_failed-Drained b m none t f h = h
  unless_failed-Drained b m (some x) t f h = f x refl

  module _ (p : P) (m : Bool) (rest : P → S → Option (Turn P S R))
      (next : (q : P) (t : S)
        → pending q < pending p
        → Inv t
        → Drained (pending p) m (rest q t)) where
    after_end-Drained :
        (q : P) (s : S) (f : Flow S R)
        → pending q < pending p
        → r.end s ≡ f
        → Inv s
        → Drained (pending p) m (after_end d r (rest q) f)
    unfolding after_end
    after_end-Drained q s (continue t) less e inv = next q t less (keeps.continued s t e inv)
    after_end-Drained q s (return x) less e inv = keeps.returned s x e inv

    fewer : (q : P) (e : Event) → d.event p ≡ (e, q) → (e ≡ other → ⊥) → pending q < pending p
    fewer q e told ne = elim (law.tells p q e told) [ inl h ↦ h | inr h ↦ absurd (ne h.0) ]

    on_event-Drained :
        (e : Event) (q : P) (s : S)
        → d.event p ≡ (e, q)
        → Inv s
        → Drained (pending p) m (on_event d r rest (e, q) s m)
    unfolding on_event
    on_event-Drained begin_obj q s told inv =
        next q (r.begin (d.name q) s) (fewer q begin_obj told (λ e. cc))
          (keeps.begin (d.name q) s inv)
    on_event-Drained end_obj q s told inv =
        after_end-Drained q s (r.end s) (fewer q end_obj told (λ e. cc)) refl inv
    on_event-Drained other q s told inv =
        let le : pending q ≤ pending p = elim (law.tells p q other told) [
          | inl h ↦ omega arith
          | inr h ↦ h.1
        ] in
        (inv, le, inl refl)

  drain-Drained :
      (n : ℕ) (p : P) (s : S) (m : Bool)
      → pending p < n
      → Inv s
      → Drained (pending p) m (drain d r n p s m)
  unfolding drain
  drain-Drained zero p s m h inv = absurd (omega arith)
  drain-Drained (suc n) p s m h inv =
      let rest = λ (q : P) (t : S). drain d r n q t true in
      let next = λ (q : P) (t : S) (less : pending q < pending p) (i : Inv t).
        Drained-less (pending p) (pending q) m (rest q t) less
          (drain-Drained n q t true (omega arith) i) in
      unless_failed-Drained (pending p) m (r.failed s) _ (λ x e. keeps.failed s x e inv)
        (on_event-Drained p m rest next (d.event p).0 (d.event p).1 s refl inv)

  appends-Inv : (chunks : List (List ℕ)) (s : S) → Inv s → Inv (appends d r chunks s)
  unfolding appends
  appends-Inv [] s i = i
  appends-Inv (bytes ∷ more) s i = appends-Inv more (r.append bytes s) (keeps.append bytes s i)

  go_on-Ended :
      (taken b : ℕ) (rest : P → List ℕ → S → Option (Flow S R)) (bytes : List ℕ)
      (t : Option (Turn P S R))
      → Drained b (ltb 0 taken) t
      → ((q : P) (u : S)
          → Inv u
          → pending q ≤ b
          → (0 < taken) ⊎ (pending q < b)
          → Ended Inv Good (rest q bytes u))
      → Ended Inv Good (go_on d r rest bytes t)
  unfolding go_on
  go_on-Ended taken b rest bytes none h next = h
  go_on-Ended taken b rest bytes (some (over x)) h next = h
  go_on-Ended taken b rest bytes (some (going q u m)) (inv, le, o) next =
      if_holds (Ended Inv Good) (is_empty d r bytes || not m) _ _ (λ _. inv)
        (λ e.
          next q u inv le
            (elim o [ inl same ↦ inl (ground (arith, e, same)) | inr less ↦ inr less ]))

  pub loop-Ended :
      (k n : ℕ) (p : P) (bytes : List ℕ) (s : S)
      → pending p + length bytes < k
      → 2 * length bytes + pending p < n
      → Inv s
      → Ended Inv Good (loop d r k n p bytes s)
  unfolding loop
  loop-Ended k zero p bytes s h f inv = absurd (omega arith)
  loop-Ended k (suc n) p bytes s h f inv =
      let (taken, chunks, q) = d.push p bytes in
      let le = law.takes p bytes in
      let pends = law.pends p bytes in
      let left = length-drop taken bytes in
      go_on-Ended taken (pending q) _ (drop taken bytes) _
        (drain-Drained k q (appends d r chunks s) (ltb 0 taken) (omega arith)
          (appends-Inv chunks s inv))
        (λ q' u i bound o.
          loop-Ended k n q' (drop taken bytes) u (omega arith)
            (elim o [ inl some_bytes ↦ omega arith | inr less ↦ omega arith ]) i)
