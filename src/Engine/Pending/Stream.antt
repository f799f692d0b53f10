-- ===== src/Engine/Pending/Stream.antt =====
-- The bytes that the feed loop gives to the engine, and what it credits to the peer.
use async_tcp.Prelude.{
  ℕ, zero, suc, ◌+◌, ◌-◌, ◌%◌, ◌^◌, ◌≤◌, ◌<◌, ◌≡◌, refl, sym, ap, ◌∙◌, subst, Bool-cases, inl, inr,
  ◌⊎◌, List, [], ◌∷◌, ◌++◌, arith, ltb, leb, ◌==◌, if◌then◌else◌, length, take, drop, append_assoc,
  take-append-drop, drop-drop, drop_all, ◌≢◌,
}
use native.Mathlib.Nat.{mod-eq_of_lt}
use async_tcp.Engine.Model.{Bearssl, Sys, Call, recvrec, tcp_recved}
use async_tcp.Engine.Pending.{measure, retire, feed_bytes, feed_head, feed_loop, work, feed_pending}

-- The bytes given to the engine, in order, and the length credited with tcp_recved.
abbrev pub given : List Call → List ℕ
given [] = []
given (recvrec bytes ∷ log) = given log ++ bytes
given (c ∷ log) = given log

abbrev pub credited : List Call → ℕ
credited [] = 0
credited (tcp_recved n ∷ log) = credited log + n
credited (c ∷ log) = credited log

abbrev pub concat : List (List ℕ) → List ℕ
concat [] = []
concat (p ∷ ps) = p ++ concat ps

abbrev pub size : List (List ℕ) → ℕ
size [] = 0
size (p ∷ ps) = length p + size ps

-- What is still to be given: the queue from the offset on.
abbrev pub waiting : ℕ → List (List ℕ) → List ℕ
waiting off [] = []
waiting off (p ∷ ps) = drop off p ++ concat ps

-- A pbuf's tot_len has 16 bits.
abbrev pub Words : List (List ℕ) → Type 0
Words [] = 0 ≤ 0
Words (p ∷ ps) = (length p < 2 ^ 16) × Words ps

abbrev pub IsOffset : ℕ → List (List ℕ) → Type 0
IsOffset off [] = off ≡ 0
IsOffset off (p ∷ ps) = off ≤ length p

pub waiting-zero : (ps : List (List ℕ)) → waiting 0 ps ≡ concat ps
waiting-zero [] = refl
waiting-zero (p ∷ ps) = refl

IsOffset-zero : (ps : List (List ℕ)) → IsOffset 0 ps
IsOffset-zero [] = refl
IsOffset-zero (p ∷ ps) = omega arith

no_work : (off : ℕ) (ps : List (List ℕ)) → IsOffset off ps → work ps - off ≡ 0 → ps ≡ []
unfolding work
no_work off [] o e = refl
no_work off (p ∷ ps) o e = absurd (omega arith)

module _ {E : Type 0} where
  abbrev pub unread : Sys E → List ℕ
  unread s = waiting s.pcb.rx_pend_head_off s.pcb.rx_pend

  pub record IsQueue (s : Sys E) : Type 0 where
    pub offset : IsOffset s.pcb.rx_pend_head_off s.pcb.rx_pend
    pub words : Words s.pcb.rx_pend

  abbrev todo : Sys E → ℕ
  todo s = work s.pcb.rx_pend - s.pcb.rx_pend_head_off

  nothing_left : (s : Sys E) → IsQueue s → todo s ≡ 0 → s.pcb.rx_pend ≡ []
  nothing_left s q e = no_work s.pcb.rx_pend_head_off s.pcb.rx_pend q.offset e

  -- From s to t no byte is lost, repeated or reordered, and what is credited is what left the
  -- queue.
  pub record Moves (s t : Sys E) : Type 0 where
    pub queue : IsQueue t
    pub stream : given t.log ++ unread t ≡ given s.log ++ unread s
    pub shorter : length t.pcb.rx_pend ≤ length s.pcb.rx_pend
    pub credit : credited t.log + size t.pcb.rx_pend ≡ credited s.log + size s.pcb.rx_pend

  Moves-refl : (s : Sys E) → IsQueue s → Moves s s
  Moves-refl s q = record { queue = q; stream = refl; shorter = omega arith; credit = refl }

  Moves-trans : (s t u : Sys E) → Moves s t → Moves t u → Moves s u
  Moves-trans s t u m n = record {
    queue = n.queue;
    stream = n.stream ∙ m.stream;
    shorter = omega (arith, m.shorter, n.shorter);
    credit = n.credit ∙ m.credit;
  }

module _ (head : List ℕ) (rest : List (List ℕ)) (c n : ℕ) where
  -- The bytes taken from a pbuf and what then waits are what waited.
  split_part :
      take n (drop c head) ++ (drop (c + n) head ++ concat rest) ≡ drop c head ++ concat rest
  split_part =
      sym (append_assoc (take n (drop c head)) (drop (c + n) head) (concat rest))
      ∙ ap (λ k. (take n (drop c head) ++ k) ++ concat rest) (sym (drop-drop n c head))
      ∙ ap (λ k. k ++ concat rest) (take-append-drop n (drop c head))

  split_last :
      length head ≤ c + n → take n (drop c head) ++ waiting 0 rest ≡ drop c head ++ concat rest
  split_last le =
      ap (λ k. take n (drop c head) ++ k) (waiting-zero rest)
      ∙ sym (ap (λ k. take n (drop c head) ++ (k ++ concat rest)) (drop_all (c + n) head le))
      ∙ split_part

module _ {E : Type 0} (b : Bearssl E) (s : Sys E) (head : List ℕ) (rest : List (List ℕ)) where
  -- The state after one turn.
  abbrev turn : Sys E
  turn = retire b (feed_bytes b (measure b s head) head) head rest

  abbrev count : ℕ
  count =
      if ltb (b.recvrec_buf s.eng) (length head - s.pcb.rx_pend_head_off)
      then b.recvrec_buf s.eng
      else length head - s.pcb.rx_pend_head_off

  turn-Moves : s.pcb.rx_pend ≡ head ∷ rest → IsQueue s → Moves s turn
  unfolding retire feed_bytes measure
  turn-Moves e q =
      let c = s.pcb.rx_pend_head_off in
      let w : Words (head ∷ rest) = subst Words e q.words in
      let w0 = w.0 in
      let o : c ≤ length head = subst (IsOffset c) e q.offset in
      let off : (c + count) % 2 ^ 16 ≡ c + count = mod-eq_of_lt (ground arith) in
      let held = given s.log in
      elim (Bool-cases (leb (length head) ((c + count) % 2 ^ 16))) [
        | inl last ↦ rw last (record {
          queue = record { offset = IsOffset-zero rest; words = w.1 };
          stream =
              append_assoc held (take count (drop c head)) (waiting 0 rest)
              ∙ ap (λ k. held ++ k) (split_last head rest c count (ground arith))
              ∙ ap (λ ps. held ++ waiting c ps) (sym e);
          shorter = omega (arith, ap (length {A = List ℕ}) e);
          credit = omega (arith, ap size e);
        })
        | inr part ↦ rw part (record {
          queue = record {
            offset = subst (IsOffset ((c + count) % 2 ^ 16)) (sym e) (ground arith);
            words = q.words;
          };
          stream =
              append_assoc held (take count (drop c head)) _
              ∙ ap (λ ps. held ++ (take count (drop c head) ++ waiting ((c + count) % 2 ^ 16) ps)) e
              ∙ ap (λ k. held ++ (take count (drop c head) ++ (drop k head ++ concat rest))) off
              ∙ ap (λ k. held ++ k) (split_part head rest c count)
              ∙ ap (λ ps. held ++ waiting c ps) (sym e);
          shorter = omega arith;
          credit = refl;
        })
      ]

  -- A turn with room in the engine leaves less to do.
  turn-less : s.pcb.rx_pend ≡ head ∷ rest → IsQueue s → b.recvrec_buf s.eng ≢ 0 → todo turn < todo s
  unfolding retire feed_bytes measure work
  turn-less e q room =
      let c = s.pcb.rx_pend_head_off in
      let w : Words (head ∷ rest) = subst Words e q.words in
      let w0 = w.0 in
      let o : c ≤ length head = subst (IsOffset c) e q.offset in
      let off : (c + count) % 2 ^ 16 ≡ c + count = mod-eq_of_lt (ground arith) in
      let all : work s.pcb.rx_pend ≡ suc (length head + work rest) = ap work e in
      elim (Bool-cases (leb (length head) ((c + count) % 2 ^ 16))) [
        | inl last ↦ rw last (omega arith)
        | inr part ↦ rw part (ground arith)
      ]

module _ {E : Type 0} (b : Bearssl E) where
  -- The loop stops when the queue is empty or the engine takes no more.
  pub record Fed (s t : Sys E) : Type 0 where
    pub moves : Moves s t
    pub stops : (t.pcb.rx_pend ≡ []) ⊎ (b.recvrec_buf t.eng ≡ 0)

  Fed-after : (s t u : Sys E) → Moves s t → Fed t u → Fed s u
  Fed-after s t u m f = record { moves = Moves-trans s t u m f.moves; stops = f.stops }

  full-Fed :
      (s : Sys E) (head : List ℕ) → IsQueue s → b.recvrec_buf s.eng ≡ 0 → Fed s (measure b s head)
  unfolding measure
  full-Fed s head q none_left = record {
    moves = record {
      queue = record { offset = q.offset; words = q.words };
      stream = refl;
      shorter = omega arith;
      credit = refl;
    };
    stops = inr none_left;
  }

  module _ (n : ℕ) (next : (t : Sys E) → IsQueue t → todo t ≤ n → Fed t (feed_loop b n t))
      (s : Sys E) (q : IsQueue s) (enough : todo s ≤ suc n) where
    head-Fed :
        (ps : List (List ℕ)) → s.pcb.rx_pend ≡ ps → Fed s (feed_head b (λ t. feed_loop b n t) s ps)
    unfolding feed_head
    head-Fed [] e = record { moves = Moves-refl s q; stops = inl e }
    head-Fed (head ∷ rest) e = elim (Bool-cases (b.recvrec_buf s.eng == 0)) [
      | inl full ↦ rw full (full-Fed s head q (ground arith))
      | inr room ↦
          let m = turn-Moves b s head rest e q in
          let less = turn-less b s head rest e q (ground arith) in
          rw room
            (Fed-after s (turn b s head rest) _ m (next (turn b s head rest) m.queue (omega arith)))
    ]

  loop-Fed : (n : ℕ) (s : Sys E) → IsQueue s → todo s ≤ n → Fed s (feed_loop b n s)
  unfolding feed_loop
  loop-Fed zero s q enough = record {
    moves = Moves-refl s q;
    stops = inl (nothing_left s q (omega arith));
  }
  loop-Fed (suc n) s q enough = head-Fed n (loop-Fed n) s q enough s.pcb.rx_pend refl

  -- From a queue whose offset is within its first pbuf and whose pbufs have less than 65536 bytes,
  -- the feed loop ends within its fuel, the bytes and pbufs queued: it ends with an empty queue or
  -- with an engine that has no room. It loses, repeats and reorders no byte, and credits to the
  -- peer the length of exactly the pbufs that left the queue.
  pub feed_pending-Fed : (s : Sys E) → IsQueue s → Fed s (feed_pending b s)
  unfolding feed_pending
  feed_pending-Fed s q = loop-Fed (work s.pcb.rx_pend) s q (omega arith)
