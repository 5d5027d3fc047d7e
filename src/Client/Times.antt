-- ===== src/Client/Times.antt =====
-- `handle_connection_read` of the client: a reply is matched with the oldest message that has none.
use native.Mathlib.Nat.{mul-le-mul_right}
use latency_under_load.Prelude.{
  ℕ, ◌+◌, ◌<◌, ◌≡◌, refl, some, true, List, [], ◌∷◌, ◌++◌, arith, length, get_elem?, ok, ◌*◌, err,
  no_space, ◌^◌, ◌≤◌, ◌/◌, int_limit,
}
use latency_under_load.Prelude.Int.{ℤ, ◌-ℤ◌}
use latency_under_load.Queue.Refine.{push-Represents, push-full, pop-Represents, front-Represents}
use latency_under_load.CBuffer.OneSlot.{free_memory_same}
use latency_under_load.Config.{Config, warm_up_period}
use latency_under_load.Connection.{
  rtt_queue_size, Connection, record_msg_rtt, add_unaknowledged_msg,
}
use latency_under_load.Connection.Times.{HasTimes}
use latency_under_load.Ticks.{Calibration, Mode, IsCounting}
use latency_under_load.Ticks.Floating.{to_decimal_usec, to_decimal_usec_lem}
use latency_under_load.Prelude.Doubles.{one_double, fifth, rounded, rounded_below}
use latency_under_load.Runner.{Runner, put_connection}
use latency_under_load.Runner.Inv.{Inv, Inv-HasBuffers, put_connection-Inv}
use latency_under_load.Client.{record_message}

-- A message that is sent at the time `now` waits behind those that were sent before it, if its
-- queue has room.
pub add_unaknowledged_msg_lem :
    (now : ℤ) (c : Connection) (waiting rtts : List ℤ)
    → (h : HasTimes c waiting rtts) → length waiting < h.sent.max_queue_size
    → (c' : Connection) × (add_unaknowledged_msg now c ≡ ok c')
      × HasTimes c' (waiting ++ now ∷ []) rtts
unfolding add_unaknowledged_msg
add_unaknowledged_msg_lem now c waiting rtts h room =
    let (q, e, r, m) = push-Represents now h.sent waiting h.sent_list room in
    (
      record c { unaknowledged_msgs = some q },
      rw (h.sent_is, e) refl,
      record {
        sent = q;
        times = h.times;
        sent_is = refl;
        times_is = h.times_is;
        sent_list = r;
        times_list = h.times_list;
      },
    )

-- The product with a period of an `int`, rounded twice, is less than that with a second more.
queue_size_below :
    (period mps : ℕ)
    → period < int_limit
    → 0 < mps
    → rounded (rounded (period * one_double + fifth) * mps) / one_double < (period + 1) * mps
queue_size_below period mps short pos =
    let a = period * one_double + fifth in
    let first = rounded_below a in
    let b : rounded a ≤ period * one_double + (fifth + 2 ^ 42) = omega (arith, first) in
    let c : rounded a * mps ≤ (period * one_double + (fifth + 2 ^ 42)) * mps =
      mul-le-mul_right mps b in
    let second = rounded_below (rounded a * mps) in
    let apart : (period * one_double + (fifth + 2 ^ 42)) * mps
        ≡ period * mps * one_double + mps * (fifth + 2 ^ 42) =
      grind arith in
    let few : period * mps ≤ int_limit * mps = mul-le-mul_right mps (omega arith) in
    let more : (period + 1) * mps ≡ period * mps + mps = grind arith in
    omega (arith, c, second, apart, few, more)

rtt_queue_few :
    (config : Config)
    → config.warm ≡ warm_up_period
    → 0 < config.mps
    → config.period < int_limit
    → rtt_queue_size config < (config.period + config.warm) * config.mps
rtt_queue_few config warm pos short =
    let low = queue_size_below config.period config.mps short pos in
    let more : (config.period + 1) * config.mps ≤ (config.period + 2) * config.mps =
      mul-le-mul_right config.mps (omega arith) in
    rw warm (omega (arith, low, more))

-- A connection of a client with a warm up period, a period of an `int` and at least a message per
-- second, and conversions that divide by no 0: its queue of round trip times has no room for all the
-- replies of the time that the client runs, and the reply that finds it full stops the program.
pub record_msg_rtt_full :
    (config : Config) (calibration : Calibration) (mode : Mode) (now start : ℤ) (c : Connection)
    (waiting rtts : List ℤ)
    → IsCounting calibration mode
    → config.warm ≡ warm_up_period
    → 0 < config.mps
    → config.period < int_limit
    → (h : HasTimes c (start ∷ waiting) rtts) → h.times.max_queue_size ≡ rtt_queue_size config
    → length rtts ≡ rtt_queue_size config
    → (record_msg_rtt calibration mode now c ≡ err no_space)
      × (rtt_queue_size config < (config.period + config.warm) * config.mps)
unfolding record_msg_rtt
record_msg_rtt_full config calibration mode now start c waiting rtts counting warm pos short h full
      len =
    let (rtt, converted) =
      to_decimal_usec_lem calibration mode (record { ticks = now -ℤ start }) counting in
    (
      ground (
        arith,
        h.sent_is,
        h.times_is,
        converted,
        front-Represents h.sent start waiting h.sent_list,
        push-full rtt h.times rtts h.times_list (omega arith),
      ),
      rtt_queue_few config warm pos short,
    )

module _ (m : ℕ) (calibration : Calibration) (mode : Mode) (now : ℤ) (i : ℕ) (c : Connection)
    (r : Runner) (v : Inv m r) (at : get_elem? r.heap i ≡ some c) (valid : c.valid ≡ true)
    (counting : IsCounting calibration mode) where
  -- For a valid connection of a runner in its invariant, with messages that wait for replies and
  -- with room for a round trip time: a reply at the time `now` takes the oldest waiting message,
  -- appends the microseconds since it was sent, a `double`, to the round trip times, and keeps the
  -- invariant, where conversions divide by no 0.
  pub record_message_lem :
      (start : ℤ) (waiting rtts : List ℤ)
      → (h : HasTimes c (start ∷ waiting) rtts) → length rtts < h.times.max_queue_size
      → (usec : ℤ) × (to_decimal_usec calibration mode (record { ticks = now -ℤ start }) ≡ ok usec)
        × (c' : Connection) × (record_message calibration mode now i c r
            ≡ ok (put_connection i c' r))
        × Inv m (put_connection i c' r)
        × HasTimes c' waiting (rtts ++ usec ∷ [])
  unfolding record_message record_msg_rtt
  record_message_lem start waiting rtts h room =
      let b = Inv-HasBuffers m r i c v at valid in
      let (rtt, converted) =
        to_decimal_usec_lem calibration mode (record { ticks = now -ℤ start }) counting in
      let (q, e, k, _) = push-Represents rtt h.times rtts h.times_list room in
      let (q', e', k', _) = pop-Represents h.sent start waiting h.sent_list in
      let c' : Connection = record c {
        unaknowledged_msgs = some q';
        msgs_rtt = some q;
        write_buffer = some b.written;
      } in
      (
        rtt,
        converted,
        c',
        ground (
          arith,
          h.sent_is,
          h.times_is,
          converted,
          front-Represents h.sent start waiting h.sent_list,
          e,
          e',
          b.write_is,
          free_memory_same b.written b.written_slot,
        ),
        put_connection-Inv m r i c c' v at refl (λ e. e)
            (λ e. ((b.written_slot, b.written_size), (v.buffers i c at valid).1)),
        record {
          sent = q';
          times = q;
          sent_is = refl;
          times_is = refl;
          sent_list = k';
          times_list = k;
        },
      )
