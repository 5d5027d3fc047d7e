-- ===== src/Connection/Times.antt =====
-- The times that a connection of the client keeps: of the messages that wait for their replies, and
-- the round trip times so far.
use latency_under_load.Prelude.{◌≡◌, ◌∙◌, some, List}
use latency_under_load.Prelude.Int.{ℤ}
use latency_under_load.Queue.{Queue}
use latency_under_load.Queue.Refine.{Represents}
use latency_under_load.Connection.{Connection}

-- The times of the messages that wait for their replies, and the round trip times so far.
pub record HasTimes (c : Connection) (waiting rtts : List ℤ) : Type 0 where
  pub sent : Queue ℤ
  pub times : Queue ℤ
  pub sent_is : c.unaknowledged_msgs ≡ some sent
  pub times_is : c.msgs_rtt ≡ some times
  pub sent_list : Represents sent waiting
  pub times_list : Represents times rtts

-- A connection with its queues for the times of its messages.
abbrev pub IsTimed : Connection → Type 0
IsTimed c = (waiting : List ℤ) × (rtts : List ℤ) × HasTimes c waiting rtts

-- The buffers of a connection are no part of its times.
pub other_buffers-IsTimed :
    (c c' : Connection)
    → c'.unaknowledged_msgs ≡ c.unaknowledged_msgs
    → c'.msgs_rtt ≡ c.msgs_rtt
    → IsTimed c
    → IsTimed c'
other_buffers-IsTimed c c' e e' (waiting, rtts, h) = (
  waiting,
  rtts,
  record {
    sent = h.sent;
    times = h.times;
    sent_is = e ∙ h.sent_is;
    times_is = e' ∙ h.times_is;
    sent_list = h.sent_list;
    times_list = h.times_list;
  },
)
