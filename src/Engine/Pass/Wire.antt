-- ===== src/Engine/Pass/Wire.antt =====
-- What the records of a run are, and the steps that write none.
use async_tcp.Prelude.{
  ℕ, zero, suc, ◌+◌, ◌≡◌, refl, ◌∙◌, Bool, true, false, List, [], ◌∷◌, ◌++◌, leb, length, if_holds,
  ◌==◌,
}
use async_tcp.Engine.Model.{
  Pump, Bearssl, Sys, Host, Call, write, sendrec_ack, data_event, emit, sent_event, schedule, idle,
  dropped, queued,
}
use async_tcp.Engine.Pending.{feed_pending, feed_loop, feed_head, feed_bytes, retire, measure, work}
use async_tcp.Engine.Pass.{schedule_ssl_engine, schedule_from, arm, set_pump}

-- The records that lwIP took from the ring, in order, the lengths that the engine was told are
-- sent, and whether any data went to the owner.
abbrev pub wire : List Call → List (List ℕ)
wire [] = []
wire (write bytes true ∷ log) = wire log ++ (bytes ∷ [])
wire (c ∷ log) = wire log

abbrev pub consumed : List Call → List ℕ
consumed [] = []
consumed (sendrec_ack n ∷ log) = consumed log ++ (n ∷ [])
consumed (c ∷ log) = consumed log

-- The bytes that the peer acknowledged.
abbrev pub confirmed : List Call → ℕ
confirmed [] = 0
confirmed (sent_event n ∷ log) = confirmed log + n
confirmed (c ∷ log) = confirmed log

abbrev pub has_data : List Call → Bool
has_data [] = false
has_data (data_event bytes ∷ log) = true
has_data (c ∷ log) = has_data log

module _ {E : Type 0} where
  -- Steps that leave all this alone.
  pub record Quiet (s t : Sys E) : Type 0 where
    pub ring : t.pcb.ring ≡ s.pcb.ring
    pub server : t.pcb.is_server ≡ s.pcb.is_server
    pub handshake : t.pcb.handshake_done ≡ s.pcb.handshake_done
    pub written : wire t.log ≡ wire s.log
    pub told : consumed t.log ≡ consumed s.log
    pub confirmed_same : confirmed t.log ≡ confirmed s.log
    pub deferred : t.pcb.sendrec_deferred ≡ s.pcb.sendrec_deferred
    pub clock : t.pcb.hard_defer_start ≡ s.pcb.hard_defer_start
    pub data_given : has_data t.log ≡ has_data s.log

  Quiet-refl : (s : Sys E) → Quiet s s
  Quiet-refl s = record {
    ring = refl;
    server = refl;
    handshake = refl;
    written = refl;
    told = refl;
    data_given = refl;
    confirmed_same = refl;
    deferred = refl;
    clock = refl;
  }

  pub Quiet-trans : (s t u : Sys E) → Quiet s t → Quiet t u → Quiet s u
  Quiet-trans s t u p q = record {
    ring = q.ring ∙ p.ring;
    server = q.server ∙ p.server;
    handshake = q.handshake ∙ p.handshake;
    written = q.written ∙ p.written;
    told = q.told ∙ p.told;
    data_given = q.data_given ∙ p.data_given;
    confirmed_same = q.confirmed_same ∙ p.confirmed_same;
    deferred = q.deferred ∙ p.deferred;
    clock = q.clock ∙ p.clock;
  }

  arm-Quiet : (h : Host) (s : Sys E) → Quiet s (arm h s).1
  unfolding arm set_pump emit
  arm-Quiet h s =
      let armed = h.schedules s.log in
      let t = emit (set_pump s dropped) (schedule armed) in
      if_holds (Quiet s) armed (set_pump t queued) t
        (λ _. record {
          ring = refl;
          server = refl;
          handshake = refl;
          written = refl;
          told = refl;
          data_given = refl;
          confirmed_same = refl;
          deferred = refl;
          clock = refl;
        })
        (λ _. record {
          ring = refl;
          server = refl;
          handshake = refl;
          written = refl;
          told = refl;
          data_given = refl;
          confirmed_same = refl;
          deferred = refl;
          clock = refl;
        })

  schedule_from-Quiet : (h : Host) (s : Sys E) (p : Pump) → Quiet s (schedule_from h s p).1
  unfolding schedule_from
  schedule_from-Quiet h s queued = Quiet-refl s
  schedule_from-Quiet h s idle = arm-Quiet h s
  schedule_from-Quiet h s dropped = arm-Quiet h s

  pub schedule-Quiet : (h : Host) (s : Sys E) → Quiet s (schedule_ssl_engine h s).1
  unfolding schedule_ssl_engine
  schedule-Quiet h s = schedule_from-Quiet h s s.pcb.engine_pump_state

module _ {E : Type 0} (b : Bearssl E) where
  turn-Quiet :
      (s : Sys E) (head : List ℕ) (rest : List (List ℕ))
      → Quiet s (retire b (feed_bytes b (measure b s head) head) head rest)
  unfolding retire feed_bytes measure
  turn-Quiet s head rest =
      if_holds (Quiet s) (leb (length head) _) _ _
        (λ _. record {
          ring = refl;
          server = refl;
          handshake = refl;
          written = refl;
          told = refl;
          data_given = refl;
          confirmed_same = refl;
          deferred = refl;
          clock = refl;
        })
        (λ _. record {
          ring = refl;
          server = refl;
          handshake = refl;
          written = refl;
          told = refl;
          data_given = refl;
          confirmed_same = refl;
          deferred = refl;
          clock = refl;
        })

  module _ (loop : Sys E → Sys E) (next : (t : Sys E) → Quiet t (loop t)) where
    head-Quiet : (s : Sys E) (ps : List (List ℕ)) → Quiet s (feed_head b loop s ps)
    unfolding feed_head measure
    head-Quiet s [] = Quiet-refl s
    head-Quiet s (head ∷ rest) =
        if_holds (Quiet s) (b.recvrec_buf s.eng == 0) _ _
          (λ _. record {
            ring = refl;
            server = refl;
            handshake = refl;
            written = refl;
            told = refl;
            data_given = refl;
            confirmed_same = refl;
            deferred = refl;
            clock = refl;
          })
          (λ _.
            Quiet-trans s _ _ (turn-Quiet s head rest)
              (next (retire b (feed_bytes b (measure b s head) head) head rest)))

  loop-Quiet : (n : ℕ) (s : Sys E) → Quiet s (feed_loop b n s)
  unfolding feed_loop
  loop-Quiet zero s = Quiet-refl s
  loop-Quiet (suc n) s = head-Quiet (λ t. feed_loop b n t) (loop-Quiet n) s s.pcb.rx_pend

  pub feed_pending-Quiet : (s : Sys E) → Quiet s (feed_pending b s)
  unfolding feed_pending
  feed_pending-Quiet s = loop-Quiet (work s.pcb.rx_pend) s
