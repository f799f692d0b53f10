-- ===== src/EventQueue/Task.antt =====
-- ESP32: the task that empties the event queue, `_async_service_task` of src/AsyncTCP.cpp, and
-- `_start_async_task`. A thread that queues a packet and then notifies the task does so in two
-- steps, between which anything may happen. The notification count is FreeRTOS's.
use async_tcp.Prelude.{
  ℕ, suc, ◌+◌, ◌<◌, ◌≡◌, ◌⊎◌, inl, inr, refl, ap, arith, Bool, true, false, ◌&&◌, Option, none,
  some, if◌then◌else◌, length,
}
use async_tcp.EventQueue.{
  Packet, Queue, push_back, push_front, get_async_event, remove_events_for_client,
}
use async_tcp.EventQueue.Order.{Taken, nothing, packet, get_async_event-Taken}
use async_tcp.EventQueue.Purge.{remove_events_for_client_lem}

-- The queue, the notifications that the task has not taken, the threads that have queued a packet
-- and not notified the task yet, and whether the task is in ulTaskNotifyTake.
pub record Service : Type 0 where
  pub queue : Queue
  pub notified : ℕ
  pub notifying : ℕ
  pub waiting : Bool

-- `_async_queue.push_back` and `push_front` in `_send_async_event` and `_prepend_async_event`.
unfoldable pub queue_back : Packet → Service → Service
queue_back e s = record s { queue = push_back s.queue e; notifying = suc s.notifying }

unfoldable pub queue_front : Packet → Service → Service
queue_front e s = record s { queue = push_front s.queue e; notifying = suc s.notifying }

-- xTaskNotifyGive, which ends both.
unfoldable pub give : ℕ → Service → Service
give left s = record s { notified = suc s.notified; notifying = left }

-- The packet is handled, or there is none and the task goes to wait.
unfoldable pub after_get : Service → Option Packet × Queue → Option Packet × Service
after_get s (none, q) = (none, record s { queue = q; waiting = true })
after_get s (some e, q) = (some e, record s { queue = q })

-- One turn of the task's inner loop.
unfoldable pub turn : ℕ → Service → Option Packet × Service
turn fuel s = after_get s (get_async_event fuel s.queue)

-- ulTaskNotifyTake returns: the count is cleared.
unfoldable pub wake : Service → Service
wake s = record s { notified = 0; waiting = false }

-- What happens: a thread queues a packet, notifies the task, or purges a client's packets, and the
-- task takes a packet, wakes up, or has slept as long as it may.
pub data Step (s : Service) : Service → Type 0 where
  back : (e : Packet) → Step s (queue_back e s)
  front : (e : Packet) → Step s (queue_front e s)
  notify : (left : ℕ) → s.notifying ≡ suc left → Step s (give left s)
  remove : (client : ℕ) → Step s (record s { queue = (remove_events_for_client client s.queue).1 })
  take : (fuel : ℕ) → s.waiting ≡ false → length s.queue.packets < fuel → Step s (turn fuel s).1
  woken : s.waiting ≡ true → 0 < s.notified → Step s (wake s)
  slept : s.waiting ≡ true → Step s (wake s)

pub data Reach (s : Service) : Service → Type 0 where
  here : Reach s s
  next : {t u : Service} → Reach s t → Step t u → Reach s u

-- The task runs, or has nothing to do, or was notified, or is about to be.
abbrev pub IsAttended : Service → Type 0
IsAttended s = (s.waiting ≡ false) ⊎ (length s.queue.packets ≡ 0) ⊎ (0 < s.notified + s.notifying)

after_get-IsAttended :
    (s : Service) (r : Option Packet × Queue)
    → s.waiting ≡ false
    → Taken s.queue.packets r
    → IsAttended (after_get s r).1
unfolding after_get
after_get-IsAttended s (none, q) w (nothing empty e left) = inr (inl (ap length left))
after_get-IsAttended s (none, q) w (packet dropped p same o ps c e f) = absurd cc
after_get-IsAttended s (some p, q) w t = inl w

Step-IsAttended : {s t : Service} → Step s t → IsAttended s → IsAttended t
unfolding queue_back queue_front give turn wake
Step-IsAttended {s} (back e) h = inr (inr (omega arith))
Step-IsAttended {s} (front e) h = inr (inr (omega arith))
Step-IsAttended {s} (notify left e) h = inr (inr (omega arith))
Step-IsAttended {s} (remove client) h =
    let shorter = (remove_events_for_client_lem client s.queue).2 in
    elim h [ inl w ↦ inl w | inr (inl n) ↦ inr (inl (omega arith)) | inr (inr n) ↦ inr (inr n) ]
Step-IsAttended {s} (take fuel w h) a =
    after_get-IsAttended s (get_async_event fuel s.queue) w (get_async_event-Taken fuel s.queue h)
Step-IsAttended {s} (woken w n) h = inl refl
Step-IsAttended {s} (slept w) h = inl refl

-- On ESP32, from a state in which the task runs, or the queue is empty, or the task was notified,
-- or a thread that has queued a packet is about to notify it, one of these holds again after any
-- steps of threads that queue, notify and purge, in any order, and of the task, which waits only
-- after it has found the queue empty.
pub Reach-IsAttended : {s t : Service} → IsAttended s → Reach s t → IsAttended t
Reach-IsAttended h here = h
Reach-IsAttended h (next r st) = Step-IsAttended st (Reach-IsAttended h r)

-- The mutex of the queue and the task, where they were made.
pub record Started : Type 0 where
  pub mutex : Bool
  pub task : Bool

-- `_start_async_task`; whether a mutex and a task can be made.
unfoldable pub start_async_task : (new_mutex new_task : Bool) → Started → Bool × Started
start_async_task new_mutex new_task s =
    if s.mutex
    then (if s.task then (true, s) else (new_task, record s { task = new_task }))
    else (if new_mutex
        then (if s.task
            then (true, record s { mutex = true })
            else (new_task, record { mutex = true; task = new_task }))
        else (false, s))

-- It answers whether both are there.
start_async_task_both :
    (new_mutex new_task : Bool) (s : Started)
    → (start_async_task new_mutex new_task s).0
      ≡ (let t = (start_async_task new_mutex new_task s).1 in t.mutex && t.task)
unfolding start_async_task
start_async_task_both new_mutex new_task s = ground arith
