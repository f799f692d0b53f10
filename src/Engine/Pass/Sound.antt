-- ===== src/Engine/Pass/Sound.antt =====
-- A run of the engine writes to TCP through the ring alone, and delivers data in order.
use async_tcp.Prelude.{
  ℕ, ◌≡◌, ◌≢◌, refl, sym, ap, ◌∙◌, subst, true, map, List, [], ◌∷◌, ◌++◌, length, Option, none,
  some,
}
use async_tcp.Engine.Ring.{fill, commit}
use async_tcp.Engine.Ring.Window.{set_self}
use async_tcp.Engine.Ring.Account.{Reach, wrote, refused, map-snoc}
use async_tcp.Engine.Model.{
  Bearssl, Sys, Host, Call, data_event, handshake_event, error_event, emit,
}
use async_tcp.Engine.Pass.{
  Events, set_handshake_done, record_queued, record_refused, process_ssl_engine,
}
use async_tcp.Engine.Pass.Invariant.{
  IsRecord, IsServed, Survives, TurnHolds, IsKept, process_ssl_engine-Holds,
}
use async_tcp.Engine.Pass.Wire.{
  wire, consumed, confirmed, has_data, Quiet, schedule-Quiet, feed_pending-Quiet,
}

module _ {E : Type 0} (b : Bearssl E) (h : Host) (out : Events E) (slots size : ℕ) where
  -- What runs outside keeps P, and does not take back a handshake that is over.
  pub record IsSteady (P : Sys E → Type 0) : Type 0 where
    pub yielded : (s : Sys E) → P s → Survives P (out.yields s)
    pub called : (c : Call) (s : Sys E) → P s → Survives P (out.calls c s)
    pub keeps_done :
        (c : Call) (s : Sys E)
        → s.pcb.handshake_done ≡ true
        → Survives (λ t. t.pcb.handshake_done ≡ true) (out.calls c s)

  -- The ring is in a state that the records written and the bytes acknowledged reach; the engine
  -- was told of each record, in order, that it is sent, and of no other; a server gives its owner
  -- no data before the handshake is over; and the stall clock runs only for a deferred record.
  pub record IsSession (s : Sys E) : Type 0 where
    pub reached : Reach slots size s.pcb.ring (wire s.log) (confirmed s.log)
    pub told : consumed s.log ≡ map length (wire s.log)
    pub ordered : has_data s.log ≡ true → IsServed s
    pub clocked : s.pcb.hard_defer_start ≢ 0 → s.pcb.sendrec_deferred ≡ true

  pub Quiet-IsSession : (s t : Sys E) → Quiet s t → IsSession s → IsSession t
  Quiet-IsSession s t q p = record {
    reached =
        subst (λ r. Reach slots size r (wire t.log) (confirmed t.log)) (sym q.ring)
          (subst (λ w. Reach slots size s.pcb.ring w (confirmed t.log)) (sym q.written)
            (subst (λ n. Reach slots size s.pcb.ring (wire s.log) n) (sym q.confirmed_same)
              p.reached));
    told = q.told ∙ p.told ∙ ap (map length) (sym q.written);
    ordered =
        λ given server. q.handshake ∙ p.ordered (sym q.data_given ∙ given) (sym q.server ∙ server);
    clocked = λ runs. q.deferred ∙ p.clocked (λ e. runs (q.clock ∙ e));
  }

  both :
      (P : Sys E → Type 0) (Q : Sys E → Type 0) (o : Option (Sys E))
      → Survives P o
      → Survives Q o
      → Survives (λ t. P t × Q t) o
  both P Q none p q = p
  both P Q (some t) p q = (p, q)

  served :
      (o : Option (Sys E)) → Survives (λ t. t.pcb.handshake_done ≡ true) o → Survives IsServed o
  served none p = p
  served (some t) p = λ _. p

  module _ (s : Sys E) (bytes : List ℕ) (p : IsSession s)
      (r : IsRecord b h out slots size s bytes) where
    slot_copy : (fill s.pcb.ring bytes).copied (fill s.pcb.ring bytes).out_ring_next ≡ bytes
    unfolding fill
    slot_copy = set_self slots s.pcb.ring.copied s.pcb.ring.out_ring_next bytes

    queued-IsSession : TurnHolds IsSession (record_queued b h out slots size s bytes)
    unfolding record_queued
    queued-IsSession =
        let ring = fill s.pcb.ring bytes in
        let grown : wire s.log ++ (bytes ∷ [])
            ≡ wire s.log ++ (ring.copied ring.out_ring_next ∷ []) =
          ap (λ x. wire s.log ++ (x ∷ [])) (sym slot_copy) in
        record {
          reached =
              subst (λ w. Reach slots size (commit slots ring bytes) w (confirmed s.log)) grown
                (wrote bytes p.reached r.free r.some_bytes r.fit);
          told =
              ap (λ l. l ++ (length bytes ∷ [])) p.told
              ∙ sym (map-snoc (wire s.log) bytes)
              ∙ ap (map length) grown;
          ordered = p.ordered;
          clocked = λ runs. absurd (runs refl);
        }

    refused-IsSession : TurnHolds IsSession (record_refused b h out slots size s bytes)
    unfolding record_refused
    refused-IsSession = record {
      reached = refused bytes p.reached r.free;
      told = p.told;
      ordered = p.ordered;
      clocked = λ runs. refl;
    }

  IsSession-IsKept : IsSteady IsSession → IsKept b h out slots size IsSession
  unfolding emit set_handshake_done
  IsSession-IsKept steady = record {
    feeds = λ s p. Quiet-IsSession s _ (feed_pending-Quiet b s) p;
    schedules = λ s p. Quiet-IsSession s _ (schedule-Quiet h s) p;
    engine = λ s e p. record {
      reached = p.reached;
      told = p.told;
      ordered = p.ordered;
      clocked = p.clocked;
    };
    done = λ s p. record {
      reached = p.reached;
      told = p.told;
      ordered = λ given server. refl;
      clocked = p.clocked;
    };
    yielded = steady.yielded;
    handshake = λ s p over.
        both IsSession IsServed _
          (steady.called handshake_event _ (record {
            reached = p.reached;
            told = p.told;
            ordered = p.ordered;
            clocked = p.clocked;
          }))
          (served _ (steady.keeps_done handshake_event _ over));
    delivered = λ s bytes p ready.
        steady.called (data_event bytes) _ (record {
          reached = p.reached;
          told = p.told;
          ordered = λ _. ready;
          clocked = p.clocked;
        });
    failed = λ s err p.
        steady.called (error_event err) _
          (record { reached = p.reached; told = p.told; ordered = p.ordered; clocked = p.clocked });
    wrote = queued-IsSession;
    kept_back = refused-IsSession;
  }

  pub process_ssl_engine-IsSession :
      IsSteady IsSession
      → (s : Sys E) → IsSession s
      → Survives IsSession (process_ssl_engine b h out slots size s)
  process_ssl_engine-IsSession steady s p =
      process_ssl_engine-Holds b h out slots size IsSession (IsSession-IsKept steady) s p
