-- ===== src/Engine/Pending/Arrivals.antt =====
-- Every byte that `tcp_ssl_read` takes reaches the engine, once and in order.
use async_tcp.Prelude.{
  ℕ, ◌^◌, ◌≤◌, ◌<◌, ◌≡◌, sym, ap, ◌∙◌, subst, true, Bool-cases, inl, inr, List, [], ◌∷◌, ◌++◌,
  arith, leb, length, append_assoc, append-nil, length-append, drop,
}
use async_tcp.Engine.Model.{Bearssl, Sys}
use async_tcp.Engine.Pending.{feed_pending, queue_pbuf, rx_pend_max}
use async_tcp.Engine.Pending.Stream.{
  given, unread, waiting, concat, IsQueue, IsOffset, Words, feed_pending-Fed,
}

module _ {E : Type 0} (b : Bearssl E) where
  -- The states of a session with the bytes received so far: pbufs that the queue takes, runs of
  -- the feed loop, and whatever else leaves the queue and what the engine was given alone.
  pub data Arrives : Sys E → List ℕ → Type 0 where
    opened :
        (s : Sys E)
        → s.pcb.rx_pend ≡ []
        → s.pcb.rx_pend_head_off ≡ 0
        → given s.log ≡ []
        → Arrives s []
    received :
        {s : Sys E} {bytes : List ℕ} (pb : List ℕ)
        → Arrives s bytes
        → length pb < 2 ^ 16
        → (queue_pbuf s pb).0 ≡ true
        → Arrives (queue_pbuf s pb).1 (bytes ++ pb)
    fed : {s : Sys E} {bytes : List ℕ} → Arrives s bytes → Arrives (feed_pending b s) bytes
    elsewhere :
        {s : Sys E} {bytes : List ℕ} (t : Sys E)
        → Arrives s bytes
        → t.pcb.rx_pend ≡ s.pcb.rx_pend
        → t.pcb.rx_pend_head_off ≡ s.pcb.rx_pend_head_off
        → given t.log ≡ given s.log
        → Arrives t bytes

  pub record Arrived (s : Sys E) (bytes : List ℕ) : Type 0 where
    pub queue : IsQueue s
    pub stream : given s.log ++ unread s ≡ bytes
    pub bounded : length s.pcb.rx_pend ≤ rx_pend_max

  concat-snoc : (ps : List (List ℕ)) (pb : List ℕ) → concat (ps ++ (pb ∷ [])) ≡ concat ps ++ pb
  concat-snoc [] pb = append-nil pb
  concat-snoc (p ∷ ps) pb =
      ap (λ k. p ++ k) (concat-snoc ps pb) ∙ sym (append_assoc p (concat ps) pb)

  waiting-snoc :
      (off : ℕ) (ps : List (List ℕ)) (pb : List ℕ)
      → IsOffset off ps
      → waiting off (ps ++ (pb ∷ [])) ≡ waiting off ps ++ pb
  waiting-snoc off [] pb o = ap (λ k. waiting k (pb ∷ [])) o ∙ append-nil pb
  waiting-snoc off (p ∷ ps) pb o =
      ap (λ k. drop off p ++ k) (concat-snoc ps pb) ∙ sym (append_assoc (drop off p) (concat ps) pb)

  IsOffset-snoc :
      (off : ℕ) (ps : List (List ℕ)) (pb : List ℕ)
      → IsOffset off ps
      → IsOffset off (ps ++ (pb ∷ []))
  IsOffset-snoc off [] pb o = omega arith
  IsOffset-snoc off (p ∷ ps) pb o = o

  Words-snoc :
      (ps : List (List ℕ)) (pb : List ℕ) → Words ps → length pb < 2 ^ 16 → Words (ps ++ (pb ∷ []))
  Words-snoc [] pb w h = (h, omega arith)
  Words-snoc (p ∷ ps) pb w h = (w.0, Words-snoc ps pb w.1 h)

  queue_pbuf-Arrived :
      (s : Sys E) (bytes pb : List ℕ)
      → length pb < 2 ^ 16
      → (queue_pbuf s pb).0 ≡ true
      → Arrived s bytes
      → Arrived (queue_pbuf s pb).1 (bytes ++ pb)
  unfolding queue_pbuf
  queue_pbuf-Arrived s bytes pb word took a =
      elim (Bool-cases (leb rx_pend_max (length s.pcb.rx_pend))) [
        | inl full ↦ absurd (ground arith)
        | inr room ↦
            let q = a.queue in
            let off = s.pcb.rx_pend_head_off in
            let ps = s.pcb.rx_pend in
            rw room (record {
              queue = record {
                offset = IsOffset-snoc off ps pb q.offset;
                words = Words-snoc ps pb q.words word;
              };
              stream =
                  ap (λ k. given s.log ++ k) (waiting-snoc off ps pb q.offset)
                  ∙ sym (append_assoc (given s.log) (unread s) pb)
                  ∙ ap (λ k. k ++ pb) a.stream;
              bounded = ground (arith, length-append ps (pb ∷ []));
            })
      ]

  elsewhere-Arrived :
      (s t : Sys E) (bytes : List ℕ)
      → t.pcb.rx_pend ≡ s.pcb.rx_pend
      → t.pcb.rx_pend_head_off ≡ s.pcb.rx_pend_head_off
      → given t.log ≡ given s.log
      → Arrived s bytes
      → Arrived t bytes
  elsewhere-Arrived s t bytes ps off log a = record {
    queue = record {
      offset =
          subst (IsOffset t.pcb.rx_pend_head_off) (sym ps)
            (subst (λ k. IsOffset k s.pcb.rx_pend) (sym off) a.queue.offset);
      words = subst Words (sym ps) a.queue.words;
    };
    stream =
        ap (λ k. k ++ waiting t.pcb.rx_pend_head_off t.pcb.rx_pend) log
        ∙ ap (λ k. given s.log ++ waiting k t.pcb.rx_pend) off
        ∙ ap (λ k. given s.log ++ waiting s.pcb.rx_pend_head_off k) ps
        ∙ a.stream;
    bounded = omega (arith, ap (length {A = List ℕ}) ps, a.bounded);
  }

  -- The bytes given to the engine, in order, and those that still wait in the queue are the bytes
  -- of the pbufs that the queue took, each once and in order, and the queue has at most 16 pbufs.
  -- A pbuf has less than 65536 bytes, and apart from the two functions nothing changes the queue
  -- or what the engine was given.
  pub Arrives-Arrived : (s : Sys E) (bytes : List ℕ) → Arrives s bytes → Arrived s bytes
  Arrives-Arrived _ _ (opened s none_queued start fresh) = record {
    queue = record {
      offset = subst (IsOffset s.pcb.rx_pend_head_off) (sym none_queued) start;
      words = subst Words (sym none_queued) (omega arith);
    };
    stream = ap (λ k. k ++ unread s) fresh ∙ ap (waiting s.pcb.rx_pend_head_off) none_queued;
    bounded = omega (arith, ap (length {A = List ℕ}) none_queued);
  }
  Arrives-Arrived _ _ (received {s} {bytes} pb past word took) =
      queue_pbuf-Arrived s bytes pb word took (Arrives-Arrived s bytes past)
  Arrives-Arrived _ _ (fed {s} {bytes} past) =
      let a = Arrives-Arrived s bytes past in
      let m = (feed_pending-Fed b s a.queue).moves in
      record {
        queue = m.queue;
        stream = m.stream ∙ a.stream;
        bounded = omega (arith, m.shorter, a.bounded);
      }
  Arrives-Arrived _ _ (elsewhere {s} {bytes} t past ps off log) =
      elsewhere-Arrived s t bytes ps off log (Arrives-Arrived s bytes past)
