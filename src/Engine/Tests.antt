-- ===== src/Engine/Tests.antt =====
-- The theorems on the BearSSL session at concrete inputs.
mod Life
mod Start
mod Rest
mod Admit
mod Listen
mod Connect
mod Poll
use async_tcp.Prelude.{
  ℕ, suc, ◌+◌, ◌≤◌, ◌<◌, ◌≡◌, refl, Bool, true, false, arith, List, [], ◌∷◌, ◌++◌, length, Option,
  none, some, if◌then◌else◌, ltb, leb, ◌==◌, ◌⊎◌,
}
use async_tcp.Engine.Ring.{
  Ring, empty_ring, fill, commit, ring_sent, set_at, oldest, release_loop, release_oldest, anchor,
}
use async_tcp.Engine.Ring.Account.{Reach, allocated, wrote, sent, IsConfig, Account, total}
use async_tcp.Engine.Ring.Reachable.{Settled, Reach-Settled}
use async_tcp.Engine.Model.{Pump, idle, dropped, queued, Pcb, State, Bearssl, Sys, Host, Call, emit}
use async_tcp.Engine.Pending.{
  feed_pending, feed_loop, feed_head, feed_bytes, retire, measure, work, queue_pbuf, record_len,
  raise,
}
use async_tcp.Engine.Pending.Stream.{Fed, IsQueue, feed_pending-Fed}
use async_tcp.Engine.Pending.Arrivals.{Arrives, Arrived, Arrives-Arrived}

-- An engine with room for some bytes at a time, and records to send.
pub record Toy : Type 0 where
  pub room : ℕ
  pub records : List (List ℕ)

unfoldable pub first : List (List ℕ) → List ℕ
first [] = []
first (x ∷ xs) = x

unfoldable pub others : List (List ℕ) → List (List ℕ)
others [] = []
others (x ∷ xs) = xs

abbrev pub toy : Bearssl Toy
toy = record {
  current_state = λ e. record {
    closed = false;
    sendrec = ltb 0 (length (first e.records));
    recvrec = true;
    sendapp = false;
    recvapp = false;
  };
  last_error = λ e. 0;
  fresh = λ e. true;
  recvrec_buf = λ e. e.room;
  recvrec_ack = λ e bytes. e;
  recvapp_buf = λ e. [];
  recvapp_ack = λ e n. e;
  sendapp_buf = λ e. 0;
  sendapp_ack = λ e bytes. e;
  sendrec_buf = λ e. first e.records;
  sendrec_ack = λ e n. record e { records = others e.records };
  flush = λ e. e;
  close = λ e. record e { records = (9 ∷ []) ∷ [] };
}

abbrev pub toy_host : Host
toy_host = record {
  sndbuf = λ log. 100;
  sndqueuelen = λ log. 0;
  snd_queuelen = 8;
  accepts = λ log bytes. true;
  millis = λ log. 7;
  schedules = λ log. true;
}

abbrev pub session : List (List ℕ) → List (List ℕ) → Sys Toy
session pbufs out = record {
  pcb = record {
    is_server = true;
    handshake_done = true;
    sendrec_deferred = false;
    hard_defer_start = 0;
    body_started = false;
    engine_pump_state = idle;
    inbuf_cap = 64;
    rx_pend = pbufs;
    rx_pend_head_off = 0;
    max_rec_len = 0;
    ring = empty_ring;
    on_data = true;
    on_handshake = true;
    on_error = true;
  };
  eng = record { room = 2; records = out };
  log = [];
}

pub config : IsConfig 2 8
config = record { some_slot = omega arith; slots_byte = omega arith; size_word = omega arith }

-- Two records written to a ring of two slots, and all but the last byte acknowledged.
abbrev filled : Ring
filled =
    commit 2 (fill (commit 2 (fill empty_ring (1 ∷ 2 ∷ 3 ∷ [])) (1 ∷ 2 ∷ 3 ∷ [])) (4 ∷ 5 ∷ []))
      (4 ∷ 5 ∷ [])

filled-Reach : Reach 2 8 filled ((1 ∷ 2 ∷ 3 ∷ []) ∷ (4 ∷ 5 ∷ []) ∷ []) 0
unfolding commit fill
filled-Reach =
    wrote (4 ∷ 5 ∷ []) (wrote (1 ∷ 2 ∷ 3 ∷ []) allocated (omega arith) (omega arith) (omega arith))
      (omega arith) (omega arith) (omega arith)

ring_sent_test :
    ((ring_sent 2 filled 4).out_ring_pinned ≡ 1) × ((ring_sent 2 filled 4).out_ring_acked ≡ 1)
unfolding ring_sent commit fill oldest release_loop release_oldest anchor
ring_sent_test = (refl, refl)

Reach-Settled_example :
    Settled 2 8 config (ring_sent 2 filled 4) ((1 ∷ 2 ∷ 3 ∷ []) ∷ (4 ∷ 5 ∷ []) ∷ []) 4
Reach-Settled_example =
    Reach-Settled 2 8 config _ _ _ (sent 4 filled-Reach (omega arith) (omega arith))

two_pbufs-IsQueue : IsQueue (session ((1 ∷ 2 ∷ 3 ∷ []) ∷ (4 ∷ []) ∷ []) [])
two_pbufs-IsQueue = record {
  offset = omega arith;
  words = (omega arith, (omega arith, omega arith));
}

feed_test : (feed_pending toy (session ((1 ∷ 2 ∷ 3 ∷ []) ∷ (4 ∷ []) ∷ []) [])).pcb.rx_pend ≡ []
unfolding feed_pending feed_loop feed_head feed_bytes retire measure work
feed_test = refl

feed_pending-Fed_example :
    Fed toy
      (session ((1 ∷ 2 ∷ 3 ∷ []) ∷ (4 ∷ []) ∷ []) [])
      (feed_pending toy (session ((1 ∷ 2 ∷ 3 ∷ []) ∷ (4 ∷ []) ∷ []) []))
feed_pending-Fed_example =
    feed_pending-Fed toy (session ((1 ∷ 2 ∷ 3 ∷ []) ∷ (4 ∷ []) ∷ []) []) two_pbufs-IsQueue

abbrev queued_one : Sys Toy
queued_one = (queue_pbuf (session [] []) (1 ∷ 2 ∷ 3 ∷ [])).1

took_one : (queue_pbuf (session [] []) (1 ∷ 2 ∷ 3 ∷ [])).0 ≡ true
unfolding queue_pbuf
took_one = refl

one-Arrives : Arrives toy (feed_pending toy queued_one) (1 ∷ 2 ∷ 3 ∷ [])
one-Arrives = Arrives.fed (
    Arrives.received (1 ∷ 2 ∷ 3 ∷ []) (Arrives.opened (session [] []) refl refl refl) (omega arith)
      took_one)

Arrives-Arrived_example : Arrived toy (feed_pending toy queued_one) (1 ∷ 2 ∷ 3 ∷ [])
Arrives-Arrived_example =
    Arrives-Arrived toy (feed_pending toy queued_one) (1 ∷ 2 ∷ 3 ∷ []) one-Arrives
