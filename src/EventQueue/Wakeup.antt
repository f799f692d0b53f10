-- ===== src/EventQueue/Wakeup.antt =====
-- ESP8266 and LibreTiny: the calls of `_process_async_event` that are due while the queue holds a
-- packet, where `schedule_function` answers that its pool has room and where it does not.
use async_tcp.Prelude.{Bool, true, false, ℕ, suc, ◌<◌, ◌≡◌, ◌⊎◌, length}
use async_tcp.EventQueue.{
  Packet, Scheduled, remove_events_for_client, send_async_event, prepend_async_event,
  process_async_event,
}

abbrev pub IsAwake : Scheduled → Type 0
IsAwake s = (length s.queue.packets ≡ 0) ⊎ (0 < s.pending)

-- What happens to the queue: a packet is sent or prepended, a client's packets are purged, or the
-- scheduler takes one pending call and makes it. The handler of the packet may do anything. `armed`
-- is whether the pool of `schedule_function` has room.
pub data Step (s : Scheduled) : Scheduled → Type 0 where
  send : (armed : Bool) (e : Packet) → Step s (send_async_event armed e s)
  prepend : (armed : Bool) (e : Packet) → Step s (prepend_async_event armed e s)
  remove : (client : ℕ) → Step s (record s { queue = (remove_events_for_client client s.queue).1 })
  process :
      (armed : Bool) (handle : Packet → Scheduled → Scheduled) (left fuel : ℕ)
      → s.pending ≡ suc left
      → Step s (process_async_event armed handle fuel (record s { pending = left }))

pub data Reach (s : Scheduled) : Scheduled → Type 0 where
  here : Reach s s
  next : {t u : Scheduled} → Reach s t → Step t u → Reach s u

-- The pool has room.
abbrev pub IsArmed : {s t : Scheduled} → Step s t → Type 0
IsArmed (send armed e) = armed ≡ true
IsArmed (prepend armed e) = armed ≡ true
IsArmed (remove client) = Unit {0}
IsArmed (process armed handle left fuel e) = armed ≡ true

abbrev pub AreArmed : {s t : Scheduled} → Reach s t → Type 0
AreArmed here = Unit {0}
AreArmed (next r st) = AreArmed r × IsArmed st

-- Packets wait, and no call is due.
abbrev pub IsStuck : Scheduled → Type 0
IsStuck s = (0 < length s.queue.packets) × (s.pending ≡ 0)

abbrev pub is_purge : {s t : Scheduled} → Step s t → Bool
is_purge (remove client) = true
is_purge _ = false

-- No client's packets are purged.
abbrev pub NoPurge : {s t : Scheduled} → Reach s t → Type 0
NoPurge here = Unit {0}
NoPurge (next r st) = NoPurge r × (is_purge st ≡ false)
