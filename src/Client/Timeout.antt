-- ===== src/Client/Timeout.antt =====
-- The timeouts of `_poll` in src/AsyncTCP.cpp, on times that wrap around at 2^32 milliseconds.
use async_tcp.Prelude.{◌≡◌, ◌↔◌, arith, ℕ, ◌^◌, ◌<◌, ◌≤◌, true}
use async_tcp.Client.Handlers.{elapsed, last_tx_is_after_last_ack, one_day}

-- For times of 32 bits, the test of the ACK timeout says that the last packet sent is after the
-- last acknowledgement exactly if it is so, on the clock that wraps around, by 1 millisecond to
-- one day.
pub last_tx_is_after_last_ack-elapsed :
    (ack tx : ℕ)
    → ack < 2 ^ 32
    → tx < 2 ^ 32
    → (last_tx_is_after_last_ack ack tx ≡ true)
      ↔ ((0 < elapsed tx ack) × (elapsed tx ack ≤ one_day))
unfolding last_tx_is_after_last_ack
last_tx_is_after_last_ack-elapsed ack tx p q = ground arith
