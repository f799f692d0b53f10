-- ===== src/Engine/Pass/Invariant.antt =====
-- What a run of the engine keeps when each of its actions keeps it.
use async_tcp.Prelude.{
  ℕ, zero, suc, ◌%◌, ◌^◌, ◌≤◌, ◌<◌, ◌≡◌, refl, true, false, not, ◌&&◌, arith, List, ltb, leb,
  length, Option, none, some, if_holds,
}
use async_tcp.Engine.Model.{
  State, Bearssl, Sys, Host, data_event, handshake_event, error_event, emit,
}
use async_tcp.Engine.Pending.{feed_pending}
use async_tcp.Engine.Pass.{
  Events, Turn, again, leave, finished, resume, schedule_ssl_engine, handshake_over,
  set_handshake_done, record_queued, record_refused, window_open, write_record, emit_record,
  take_data, deliver, serve, declare, serve_alive, flush_open, fail, turn_alive, wind_up, pump_turn,
  pump, process_ssl_engine, max_feed_loops,
}

module _ {E : Type 0} where
  -- A server whose handshake is not over gets no data.
  abbrev pub IsServed : Sys E → Type 0
  IsServed s = s.pcb.is_server ≡ true → s.pcb.handshake_done ≡ true

  abbrev pub Survives : (Sys E → Type 0) → Option (Sys E) → Type 0
  Survives P none = 0 ≤ 0
  Survives P (some s) = P s

  abbrev pub TurnHolds : (Sys E → Type 0) → Turn E → Type 0
  TurnHolds P (again s) = P s
  TurnHolds P (leave s) = P s
  TurnHolds P (finished o) = Survives P o

module _ {E : Type 0} (b : Bearssl E) (h : Host) (out : Events E) (slots size : ℕ) where
  -- A record that the ring has room for.
  pub record IsRecord (s : Sys E) (bytes : List ℕ) : Type 0 where
    pub free : s.pcb.ring.out_ring_pinned < slots
    pub some_bytes : 0 < length bytes
    pub fit : length bytes ≤ size

  -- A property that every action of a run keeps. A callback only runs where the source calls it.
  pub record IsKept (P : Sys E → Type 0) : Type 0 where
    pub feeds : (s : Sys E) → P s → P (feed_pending b s)
    pub schedules : (s : Sys E) → P s → P (schedule_ssl_engine h s).1
    pub engine : (s : Sys E) (e : E) → P s → P (record s { eng = e })
    pub done : (s : Sys E) → P s → P (set_handshake_done s)
    pub yielded : (s : Sys E) → P s → Survives P (out.yields s)
    pub handshake :
        (s : Sys E)
        → P s
        → s.pcb.handshake_done ≡ true
        → Survives (λ t. P t × IsServed t) (out.calls handshake_event (emit s handshake_event))
    pub delivered :
        (s : Sys E) (bytes : List ℕ)
        → P s
        → IsServed s
        → Survives P (out.calls (data_event bytes) (emit s (data_event bytes)))
    pub failed :
        (s : Sys E) (err : ℕ)
        → P s
        → Survives P (out.calls (error_event err) (emit s (error_event err)))
    pub wrote :
        (s : Sys E) (bytes : List ℕ)
        → P s
        → IsRecord s bytes
        → TurnHolds P (record_queued b h out slots size s bytes)
    pub kept_back :
        (s : Sys E) (bytes : List ℕ)
        → P s
        → IsRecord s bytes
        → TurnHolds P (record_refused b h out slots size s bytes)

  done_now : (s : Sys E) → (set_handshake_done s).pcb.handshake_done ≡ true
  unfolding set_handshake_done
  done_now s = refl

  not_early :
      (st : State) (s : Sys E) → handshake_over st s ≡ false → st.recvapp ≡ true → IsServed s
  unfolding handshake_over
  not_early st s early data_now served = ground arith

  module _ (P : Sys E → Type 0) (k : IsKept P) where
    resume-Holds : (o : Option (Sys E)) → Survives P o → TurnHolds P (resume o)
    unfolding resume
    resume-Holds none p = p
    resume-Holds (some s) p = p

    write_record-Holds :
        (s : Sys E) (bytes : List ℕ)
        → P s
        → IsRecord s bytes
        → TurnHolds P (write_record b h out slots size s bytes)
    unfolding write_record
    write_record-Holds s bytes p r =
        if_holds (TurnHolds P) (window_open b h out slots size s bytes) _ _
          (λ _.
            if_holds (TurnHolds P) _ _ _ (λ _. k.wrote s bytes p r) (λ _. k.kept_back s bytes p r))
          (λ _. p)

    emit_record-Holds : (s : Sys E) → P s → TurnHolds P (emit_record b h out slots size s)
    unfolding emit_record
    emit_record-Holds s p =
        if_holds (TurnHolds P) (leb slots s.pcb.ring.out_ring_pinned) _ _ (λ _. p)
          (λ free.
            if_holds (TurnHolds P)
              (ltb 0 (length (b.sendrec_buf s.eng)) && leb (length (b.sendrec_buf s.eng)) size) _ _
              (λ fit.
                write_record-Holds s (b.sendrec_buf s.eng) p
                  (record { free = ground arith; some_bytes = ground arith; fit = ground arith }))
              (λ _. p))

    deliver-Holds :
        (s : Sys E) (bytes : List ℕ)
        → P s
        → IsServed s
        → TurnHolds P (deliver b h out slots size s bytes)
    unfolding deliver take_data
    deliver-Holds s bytes p served =
        let t = take_data b h out slots size s bytes in
        let q = k.engine s (b.recvapp_ack s.eng (length bytes)) p in
        if_holds (TurnHolds P) s.pcb.on_data _ _
          (λ _. resume-Holds _ (k.delivered t bytes q served)) (λ _. q)

    serve-Holds :
        (st : State) (s : Sys E)
        → P s
        → (st.recvapp ≡ true → IsServed s)
        → TurnHolds P (serve b h out slots size st s)
    unfolding serve
    serve-Holds st s p served =
        if_holds (TurnHolds P) _ _ _
          (λ some_data. deliver-Holds s (b.recvapp_buf s.eng) p (served (ground arith)))
          (λ _. emit_record-Holds s p)

    -- After `declare` a server that has data to give is past its handshake.
    Declared : State → Sys E → Type 0
    Declared st t = P t × (st.recvapp ≡ true → IsServed t)

    declare-Holds :
        (st : State) (s : Sys E) → P s → Survives (Declared st) (declare b h out slots size st s)
    unfolding declare Declared
    declare-Holds st s p =
        let t = set_handshake_done s in
        if_holds (Survives (Declared st)) (handshake_over st s) _ _
          (λ _.
            if_holds (Survives (Declared st)) t.pcb.on_handshake _ _
              (λ _.
                weaken (out.calls handshake_event (emit t handshake_event))
                  (k.handshake t (k.done s p) (done_now s)))
              (λ _. (k.done s p, λ _ _. done_now s)))
          (λ early. (p, λ data_now served. not_early st s early data_now served))
      where
        weaken :
            (o : Option (Sys E)) → Survives (λ t. P t × IsServed t) o → Survives (Declared st) o
        weaken none q = q
        weaken (some t) q = (q.0, λ _. q.1)

    serve_alive-Holds :
        (st : State) (o : Option (Sys E))
        → Survives (Declared st) o
        → TurnHolds P (serve_alive b h out slots size st o)
    unfolding serve_alive Declared
    serve_alive-Holds st none q = q
    serve_alive-Holds st (some s) q = serve-Holds st s q.0 q.1

    fail-Holds : (s : Sys E) → P s → TurnHolds P (fail b h out slots size s)
    unfolding fail
    fail-Holds s p =
        if_holds (Survives P) s.pcb.on_error _ _ (λ _. k.failed s (b.last_error s.eng % 2 ^ 8) p)
          (λ _. p)

    flush_open-Holds : (st : State) (s : Sys E) → P s → P (flush_open b h out slots size st s)
    unfolding flush_open
    flush_open-Holds st s p = if_holds P st.sendapp _ _ (λ _. k.engine s (b.flush s.eng) p) (λ _. p)

    turn_alive-Holds :
        (o : Option (Sys E)) → Survives P o → TurnHolds P (turn_alive b h out slots size o)
    unfolding turn_alive
    turn_alive-Holds none q = q
    turn_alive-Holds (some s) p =
        let st = b.current_state s.eng in
        let t = flush_open b h out slots size st s in
        let q = flush_open-Holds st s p in
        if_holds (TurnHolds P) st.closed _ _ (λ _. fail-Holds t q)
          (λ _. serve_alive-Holds st (declare b h out slots size st t) (declare-Holds st t q))

    forget : (st : State) (o : Option (Sys E)) → Survives (Declared st) o → Survives P o
    unfolding Declared
    forget st none q = q
    forget st (some s) q = q.0

    wind_up-Holds : (s : Sys E) → P s → Survives P (wind_up b h out slots size s)
    unfolding wind_up
    wind_up-Holds s p =
        let st = b.current_state s.eng in
        if_holds (Survives P)
          (not s.pcb.sendrec_deferred && ltb s.pcb.ring.out_ring_pinned slots && st.sendrec)
          (some (schedule_ssl_engine h s).1) _ (λ _. k.schedules s p)
          (λ _. forget st (declare b h out slots size st s) (declare-Holds st s p))

    turn_on :
        (loop : Sys E → Option (Sys E))
        → ((s : Sys E) → P s → Survives P (loop s))
        → (t : Turn E) → TurnHolds P t
        → Survives P (pump_turn b h out slots size loop t)
    unfolding pump_turn
    turn_on loop f (again t) q = f t q
    turn_on loop f (leave t) q = wind_up-Holds t q
    turn_on loop f (finished o) q = q

    pump-Holds : (n : ℕ) (s : Sys E) → P s → Survives P (pump b h out slots size n s)
    unfolding pump
    pump-Holds zero s p = wind_up-Holds s p
    pump-Holds (suc n) s p =
        turn_on (λ u. pump b h out slots size n u) (pump-Holds n)
          (turn_alive b h out slots size (out.yields s))
          (turn_alive-Holds (out.yields s) (k.yielded s p))

    pub process_ssl_engine-Holds :
        (s : Sys E) → P s → Survives P (process_ssl_engine b h out slots size s)
    unfolding process_ssl_engine
    process_ssl_engine-Holds s p = pump-Holds max_feed_loops (feed_pending b s) (k.feeds s p)
