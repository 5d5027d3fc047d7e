-- ===== src/Connection.antt =====
-- `connection_t` of connection.h and connection.cpp: the two buffers of a socket and, in the
-- client, the times of its messages.
pub mod Times
use latency_under_load.Prelude.{
  ℕ, ◌+◌, ◌*◌, ◌/◌, Option, none, some, Bool, true, false, if◌then◌else◌, Result, ok, err, faults,
  ◌>>=◌,
}
use latency_under_load.Prelude.Int.{ℤ, ◌-ℤ◌}
use latency_under_load.Queue.{Queue, new_queue}
use latency_under_load.Queue
use latency_under_load.CBuffer.{Buffer, new_buffer}
use latency_under_load.Config.{Config}
use latency_under_load.Ticks.{Calibration, Mode}
use latency_under_load.Ticks.Floating.{to_decimal_usec}
use latency_under_load.Prelude.Doubles.{one_double, fifth, rounded}

-- A buffer is `none` when it has been deleted. The queues are `none` in the server, which leaves
-- their pointers unset. A time is its ticks, and a round trip time is a `double` of microseconds.
pub record Connection : Type 0 where
  pub fd : ℕ
  pub index : ℕ
  pub write_buffer : Option Buffer
  pub read_buffer : Option Buffer
  pub unaknowledged_msgs : Option (Queue ℤ)
  pub msgs_rtt : Option (Queue ℤ)
  pub valid : Bool

-- `(int)((config.period + 0.2) * config.mps)`.
abbrev pub rtt_queue_size : Config → ℕ
rtt_queue_size config =
    rounded (rounded (config.period * one_double + fifth) * config.mps) / one_double

-- The constructor.
unfoldable pub new_connection : Config → ℕ → ℕ → Connection
new_connection config fd index = record {
  fd = fd;
  index = index;
  write_buffer = some (new_buffer config.message_size);
  read_buffer = some (new_buffer config.message_size);
  unaknowledged_msgs = if config.server then none else some (new_queue (rtt_queue_size config));
  msgs_rtt = if config.server then none else some (new_queue (rtt_queue_size config));
  valid = true;
}

-- The object behind a pointer, which must not have been deleted.
abbrev pub alive {ℓ} : {A : Type ℓ} → Option A → Result A
alive none = err faults
alive (some a) = ok a

-- The getters of the buffers return one another's field.
abbrev pub get_read_buffer : Connection → Result Buffer
get_read_buffer c = alive c.write_buffer

abbrev pub get_write_buffer : Connection → Result Buffer
get_write_buffer c = alive c.read_buffer

-- The connection after a change of the buffer that the getter has returned.
abbrev pub set_read_buffer : Buffer → Connection → Connection
set_read_buffer b c = record c { write_buffer = some b }

abbrev pub set_write_buffer : Buffer → Connection → Connection
set_write_buffer b c = record c { read_buffer = some b }

-- Deletes both buffers; to delete one twice is a fault.
unfoldable pub remove_connection : Connection → Result Connection
remove_connection c = do
  w ← alive c.write_buffer
  r ← alive c.read_buffer
  ok (record c { write_buffer = none; read_buffer = none; valid = false })

-- At the time `now`.
unfoldable pub add_unaknowledged_msg : ℤ → Connection → Result Connection
add_unaknowledged_msg now c = do
  sent ← alive c.unaknowledged_msgs
  sent' ← Queue.push now sent
  ok (record c { unaknowledged_msgs = some sent' })

unfoldable pub record_msg_rtt : Calibration → Mode → ℤ → Connection → Result Connection
record_msg_rtt calibration mode now c = do
  sent ← alive c.unaknowledged_msgs
  start ← Queue.front sent
  rtt ← to_decimal_usec calibration mode (record { ticks = now -ℤ start })
  times ← alive c.msgs_rtt
  times' ← Queue.push rtt times
  sent' ← Queue.pop sent
  ok (record c { unaknowledged_msgs = some sent'; msgs_rtt = some times' })
