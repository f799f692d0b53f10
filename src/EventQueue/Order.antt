-- ===== src/EventQueue/Order.antt =====
-- What `_get_async_event` takes and what it drops.
use async_tcp.Prelude.{
  ℕ, zero, suc, ◌≤◌, ◌<◌, ◌≡◌, refl, ap, ◌∙◌, sym, true, false, ◌&&◌, Option, none, some, List, [],
  ◌∷◌, ◌++◌, ◌⊎◌, inl, inr, arith, ◌==◌, ltb, length, length-append, append_assoc, Bool-cases,
  subst,
}
use async_tcp.EventQueue.{
  Packet, Queue, is_poll, coalesce, get_async_event, discard_limit, xor_shift_next, throttle_limit,
}

-- The limit past which a poll is dropped lies between 3/4 of the nominal size and that size.
pub discard_limit_bounds : (r : ℕ) → (48 ≤ discard_limit r) × (discard_limit r < 64)
unfolding discard_limit
discard_limit_bounds r = omega arith

pub throttle_limit_bounds : (r : ℕ) → (16 ≤ throttle_limit r) × (throttle_limit r < 48)
unfolding throttle_limit
throttle_limit_bounds r = omega arith

-- Nothing but polls.
abbrev pub OnlyPolls : List Packet → Type 0
OnlyPolls [] = Unit {0}
OnlyPolls (p ∷ ps) = (is_poll p.event ≡ true) × OnlyPolls ps

OnlyPolls-append : (ps qs : List Packet) → OnlyPolls ps → OnlyPolls qs → OnlyPolls (ps ++ qs)
OnlyPolls-append [] qs h k = k
OnlyPolls-append (p ∷ ps) qs h k = (h.0, OnlyPolls-append ps qs h.1 k)

-- Nothing but polls of one client.
abbrev pub PollsOf : ℕ → List Packet → Type 0
PollsOf impl [] = Unit {0}
PollsOf impl (p ∷ ps) = (p.impl ≡ impl) × (is_poll p.event ≡ true) × PollsOf impl ps

PollsOf-OnlyPolls : (impl : ℕ) (ps : List Packet) → PollsOf impl ps → OnlyPolls ps
PollsOf-OnlyPolls impl [] h = tt
PollsOf-OnlyPolls impl (p ∷ ps) h = (h.1, PollsOf-OnlyPolls impl ps h.2)

pub coalesce-PollsOf :
    (impl : ℕ) (ps : List Packet)
    → (gone : List Packet) × PollsOf impl gone × (ps ≡ gone ++ coalesce impl ps)
unfolding coalesce
coalesce-PollsOf impl [] = ([], tt, refl)
coalesce-PollsOf impl (p ∷ ps) = elim (Bool-cases ((p.impl == impl) && is_poll p.event)) [
  | inr other ↦ rw other ([], tt, refl)
  | inl same ↦
      let (gone, h, e) = coalesce-PollsOf impl ps in
      rw same (p ∷ gone, (ground arith, ground arith, h), ap (◌∷◌ p) e)
]

-- What a call of `_get_async_event` on the packets `ps` returns: either the queue was empty, or
-- some polls from its front were dropped, `e` taken, and, if `e` is a poll, the polls of the same
-- client right behind it dropped too; the rest stays in order.
pub data Taken (ps : List Packet) (r : Option Packet × Queue) : Type 0 where
  nothing : ps ≡ [] → r.0 ≡ none → r.1.packets ≡ [] → Taken ps r
  packet :
      (dropped : List Packet) (e : Packet) (same : List Packet)
      → OnlyPolls dropped
      → PollsOf e.impl same
      → (same ≡ []) ⊎ (is_poll e.event ≡ true)
      → r.0 ≡ some e
      → ps ≡ dropped ++ e ∷ (same ++ r.1.packets)
      → Taken ps r

-- Polls in front of a queue that is not empty are dropped with those that the call drops.
Taken-append :
    (gone ps : List Packet) {r : Option Packet × Queue}
    → OnlyPolls gone
    → 0 < length ps
    → Taken ps r
    → Taken (gone ++ ps) r
Taken-append gone ps h pos (nothing e f g) = absurd (omega (arith, ap length e))
Taken-append gone ps h pos (packet dropped e same d s w f g) =
    packet (gone ++ dropped) e same (OnlyPolls-append gone dropped h d) s w f
      (ap (λ qs. gone ++ qs) g ∙ sym (append_assoc gone dropped _))

get_async_event-go :
    (k : ℕ) (ps : List Packet) (rng : ℕ)
    → length ps < k
    → Taken ps (get_async_event k (record { packets = ps; rng = rng }))
unfolding get_async_event
get_async_event-go zero ps rng h = absurd (omega arith)
get_async_event-go (suc k) [] rng h = nothing refl refl refl
get_async_event-go (suc k) (e ∷ rest) rng h = elim (Bool-cases (is_poll e.event)) [
  | inr other ↦ rw other (packet [] e [] tt tt (inl refl) refl refl)
  | inl polls ↦
      let left = coalesce e.impl rest in
      let r = xor_shift_next rng in
      let (gone, p, eq) = coalesce-PollsOf e.impl rest in
      rw polls (elim (Bool-cases (ltb (discard_limit r) (length left))) [
        | inr few ↦ rw few (packet [] e gone tt p (inr polls) refl (ap (◌∷◌ e) eq))
        | inl many ↦
            let shorter : length left < k = omega (arith, ap length eq, length-append gone left) in
            let pos : 0 < length left = ground (arith, discard_limit_bounds r) in
            rw many (
              subst (λ ps. Taken ps (get_async_event k (record { packets = left; rng = r })))
                (sym (ap (◌∷◌ e) eq))
                (Taken-append (e ∷ gone) left (polls, PollsOf-OnlyPolls e.impl gone p) pos
                  (get_async_event-go k left r shorter)))
      ])
]

-- A call on fuel beyond the queue's length drops nothing but polls, keeps the order of the rest,
-- and comes back with nothing only if the queue was empty.
pub get_async_event-Taken :
    (k : ℕ) (q : Queue) → length q.packets < k → Taken q.packets (get_async_event k q)
get_async_event-Taken k q h = get_async_event-go k q.packets q.rng h

-- An event at the front of the queue that is no poll is the one taken, and the rest stays as it
-- is.
pub get_async_event-first :
    (k : ℕ) (q : Queue) (e : Packet) (rest : List Packet)
    → q.packets ≡ e ∷ rest
    → is_poll e.event ≡ false
    → get_async_event (suc k) q ≡ (some e, record q { packets = rest })
unfolding get_async_event
get_async_event-first k q e rest f n = rw (f, n)
