-- ===== src/Engine/Tests/Life.antt =====
-- The life of a session and its poll, at concrete inputs.
use async_tcp.Prelude.{◌≡◌, refl, [], ◌∷◌, Option, none, some}
use async_tcp.Engine.Ring.{fill, commit}
use async_tcp.Engine.Model.{Sys}
use async_tcp.Engine.Pending.{feed_pending, feed_loop, work}
use async_tcp.Engine.Pass.{
  Events, handshake_over, window_open, write_record, emit_record, serve, declare, serve_alive,
  flush_open, turn_alive, wind_up, pump_turn, pump, process_ssl_engine, record_queued,
}
use async_tcp.Engine.Pass.Wire.{wire}
use async_tcp.Engine.Pass.Sound.{IsSession, IsSteady}
use async_tcp.Engine.Live.{Live, opened, pumped, Live-IsSession}
use async_tcp.Engine.Tests.{Toy, toy, toy_host, session, first, others}

-- Nothing happens outside, and the callbacks do nothing.
abbrev pub calm : Events Toy
calm = record { yields = λ s. some s; calls = λ c s. some s }

pub calm-IsSteady : IsSteady toy toy_host calm 2 8 (IsSession toy toy_host calm 2 8)
calm-IsSteady = record { yielded = λ s p. p; called = λ c s p. p; keeps_done = λ c s p. p }

abbrev pub one_record : Sys Toy
one_record = session [] ((1 ∷ 2 ∷ 3 ∷ []) ∷ [])

unfoldable pub get : Sys Toy → Option (Sys Toy) → Sys Toy
get s none = s
get s (some t) = t

abbrev pub pumped_once : Sys Toy
pumped_once = get one_record (process_ssl_engine toy toy_host calm 2 8 one_record)

pumped_test : process_ssl_engine toy toy_host calm 2 8 one_record ≡ some pumped_once
unfolding process_ssl_engine pump pump_turn turn_alive flush_open serve_alive declare handshake_over
    serve emit_record write_record window_open record_queued wind_up feed_pending feed_loop work get
    fill commit first others
pumped_test = refl

pumped_wire : wire pumped_once.log ≡ (1 ∷ 2 ∷ 3 ∷ []) ∷ []
unfolding process_ssl_engine pump pump_turn turn_alive flush_open serve_alive declare handshake_over
    serve emit_record write_record window_open record_queued wind_up feed_pending feed_loop work get
    fill commit first others
pumped_wire = refl

pub pumped-Live : Live toy toy_host calm 2 8 pumped_once
pumped-Live = pumped pumped_once (opened one_record refl refl refl) pumped_test

Live-IsSession_example : IsSession toy toy_host calm 2 8 pumped_once
Live-IsSession_example = Live-IsSession toy toy_host calm 2 8 calm-IsSteady pumped_once pumped-Live
