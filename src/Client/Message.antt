-- ===== src/Client/Message.antt =====
-- The sending of the client: a new message for the socket whose turn it is.
use native.Mathlib.Decide.{dec_lt}
use latency_under_load.Prelude.{
  ℕ, ◌≡◌, ◌≢◌, ◌∙◌, refl, sym, subst, inl, inr, some, true, List, [], ◌∷◌, ◌++◌, arith, length,
  get_elem?, lt_of_get_elem?, ok, err, no_space, no_elements, Failure, ◌>>=◌, Faultless,
  Faultless->>=, Faultless-if, add32, Safely-Faultless,
}
use latency_under_load.Prelude.Int.{ℤ, leb_ℤ}
use latency_under_load.Prelude.Memory.{overwrite, length-overwrite, write_bytes-ok}
use latency_under_load.Queue.{Queue}
use latency_under_load.Queue
use latency_under_load.Queue.Refine.{Represents, push-Represents, push-full, front-nil}
use latency_under_load.CBuffer.{Buffer}
use latency_under_load.CBuffer.OneSlot.{
  IsOneSlot, reserved, reserve_memory-IsOneSlot, reserved-IsOneSlot, filled-IsOneSlot,
}
use latency_under_load.Config.{Config}
use latency_under_load.Connection.{Connection, set_write_buffer, add_unaknowledged_msg}
use latency_under_load.Connection.Times.{IsTimed, other_buffers-IsTimed}
use latency_under_load.Runner.{Runner, lookup, connection_at}
use latency_under_load.Runner.Inv.{
  Inv, HasSlot, Inv-HasBuffers, push-IsHeld, with_writable, put_connection-Inv, deref_at,
}
use latency_under_load.Runner.Kept.{frame}
use latency_under_load.Runner.Receive.{IsValidAt}
use latency_under_load.Client.{Client}
use latency_under_load.Client.Close.{IsApart, AreOpen}
use latency_under_load.Client.Loop.{
  bytes_of_uint, next_socket, queue_message, new_message, Schedule, send_iteration,
}
use latency_under_load.Client.Replies.{AreTimed, set-AreTimed}
use latency_under_load.Client.Sockets.{AreConnected, put-AreConnected}
use latency_under_load.Client.Turns.{next_socket_lem}
use latency_under_load.Client.Plays.{Plays, same-Plays}
use latency_under_load.Os.{Os, TracksFds}

-- The sockets after a turn.
append-IsApart : (fd x : ℕ) (fds : List ℕ) → IsApart fd fds → fd ≢ x → IsApart fd (fds ++ x ∷ [])
append-IsApart fd x [] h ne = (ne, tt)
append-IsApart fd x (y ∷ fds) h ne = (h.0, append-IsApart fd x fds h.1 ne)

pub append-AreOpen :
    (heap : List Connection) (fd : ℕ) (fds : List ℕ)
    → (i : ℕ) × IsValidAt heap i fd
    → IsApart fd fds
    → AreOpen heap fds
    → AreOpen heap (fds ++ fd ∷ [])
append-AreOpen heap fd [] k apart open_ones = (k, tt, tt)
append-AreOpen heap fd (x ∷ fds) k apart open_ones = (
  open_ones.0,
  append-IsApart x fd fds open_ones.1 (λ e. apart.0 (sym e)),
  append-AreOpen heap fd fds k apart.1 open_ones.2,
)

-- What is the same in a connection with one more message that waits.
pub record Waits (c c' : Connection) : Type 0 where
  pub timed : IsTimed c'
  pub same_fd : c'.fd ≡ c.fd
  pub same_valid : c'.valid ≡ c.valid
  pub same_written : c'.write_buffer ≡ c.write_buffer
  pub same_read : c'.read_buffer ≡ c.read_buffer

add_unaknowledged_msg-Waits :
    (now : ℤ) (c : Connection) → IsTimed c → Faultless (add_unaknowledged_msg now c) (Waits c)
unfolding add_unaknowledged_msg
add_unaknowledged_msg-Waits now c (waiting, rtts, h) =
    elim (dec_lt (length waiting) h.sent.max_queue_size) [
      | yes room ↦
          let (q, e, r, _) = push-Represents now h.sent waiting h.sent_list room in
          rw (h.sent_is, e)
            (record {
              timed = (
                waiting ++ now ∷ [],
                rtts,
                record {
                  sent = q;
                  times = h.times;
                  sent_is = refl;
                  times_is = h.times_is;
                  sent_list = r;
                  times_list = h.times_list;
                },
              );
              same_fd = refl;
              same_valid = refl;
              same_written = refl;
              same_read = refl;
            })
      | no full ↦ rw (h.sent_is, push-full now h.sent waiting h.sent_list (omega arith)) tt
    ]

module _ (os : Os) where
  pub new_message-eq :
      (s s' : Client) (w : os.World) (fd i : ℕ) (c : Connection) (b : Buffer)
      → next_socket s ≡ ok (fd, s')
      → lookup fd s'.runner.connection_list ≡ some (some i)
      → get_elem? s'.runner.heap i ≡ some c
      → c.read_buffer ≡ some b
      → IsOneSlot b
      → new_message os s w ≡ (
          queue_message (some i) i c (reserved b) b.last_msg_offset (os.current_ticks w).0 s'
          >>= λ s''. ok (s'', (os.current_ticks w).1))
  unfolding new_message connection_at
  new_message-eq s s' w fd i c b turn found at eb slot =
      ground (arith, turn, found, deref_at s'.runner i c at, eb, reserve_memory-IsOneSlot b slot)

  pub no_turn :
      (s : Client) (w : os.World) (e : Failure) → next_socket s ≡ err e → new_message os s w ≡ err e
  unfolding new_message
  no_turn s w e turn = rw turn refl

  no_socket : (s : Client) → Represents s.socket_list [] → next_socket s ≡ err no_elements
  unfolding next_socket
  no_socket s r = rw (front-nil s.socket_list r) refl

module _ (os : Os) (config : Config) (capacity : ℕ) where
  queue_message-Plays :
      (i : ℕ) (c : Connection) (b : Buffer) (now : ℤ) (s : Client) (w : os.World)
      → Plays os config capacity s w
      → get_elem? s.runner.heap i ≡ some c
      → c.valid ≡ true
      → IsOneSlot b
      → b.msg_size ≡ config.message_size
      → Faultless
          (queue_message (some i) i c b b.last_msg_offset now s)
          (λ s'. Plays os config capacity s' w)
  unfolding queue_message
  queue_message-Plays i c b now s w h at valid slot size =
      let m = config.message_size in
      let r : Runner = s.runner in
      let memory = overwrite b.buffer b.last_msg_offset (bytes_of_uint s.tick_counter) in
      let b' : Buffer = record b { buffer = memory } in
      let d : Connection = set_write_buffer b' c in
      let slot' = filled-IsOneSlot b memory slot (length-overwrite b.buffer b.last_msg_offset _) in
      rw
        (write_bytes-ok b.buffer b.last_msg_offset (bytes_of_uint s.tick_counter)
          (omega (arith, slot.allocated, slot.sized, slot.positive, slot.last_offset)))
        (Faultless->>= (add_unaknowledged_msg now d) _ _ _
          (add_unaknowledged_msg-Waits now d (other_buffers-IsTimed c d refl refl (h.timed i c at)))
          (λ c' waits.
            Faultless->>= (Queue.push (some i) r.writable_socket_list) _ _ _
              (Safely-Faultless (Queue.push (some i) r.writable_socket_list) _
                (push-IsHeld _ (some i) _ h.inv.writable (lt_of_get_elem? r.heap i c at)))
              (λ q pushed. record {
                inv =
                    put_connection-Inv m (record r { writable_socket_list = q }) i c c'
                      (with_writable m r q h.inv pushed.0) at waits.same_fd (λ live. valid)
                      (λ live. (
                        subst (HasSlot m) (sym waits.same_written) (h.inv.buffers i c at valid).0,
                        subst (HasSlot m) (sym waits.same_read) (slot', size),
                      ));
                timed = set-AreTimed r.heap i c' h.timed waits.timed;
                fds = h.fds;
                sockets = h.sockets;
                fits = h.fits;
                connected =
                    put-AreConnected os config h.fds (frame os r w) i c c' h.connected at
                      waits.same_fd waits.same_valid;
              })))

  -- The next socket has its turn.
  turned-Plays :
      (s : Client) (w : os.World) (fd : ℕ) (fds : List ℕ) (q : Queue ℕ)
      → Inv config.message_size s.runner
      → AreTimed s.runner.heap
      → AreConnected os config (fd ∷ fds) (frame os s.runner w)
      → Represents q (fds ++ fd ∷ [])
      → q.max_queue_size ≡ capacity
      → Plays os config capacity (record s { socket_list = q }) w
  turned-Plays s w fd fds q v all k r e = record {
    inv = v;
    timed = all;
    fds = fds ++ fd ∷ [];
    sockets = r;
    fits = e;
    connected = record {
      linked = k.linked;
      open_ones = append-AreOpen s.runner.heap fd fds k.open_ones.0 k.open_ones.1 k.open_ones.2;
      same_config = k.same_config;
      mapped = k.mapped;
    };
  }

  new_message-Plays :
      TracksFds os
      → (s : Client) (w : os.World) → Plays os config capacity s w
      → Faultless (new_message os s w) (λ t. Plays os config capacity t.0 t.1)
  new_message-Plays tracks s w h = turn h.fds h.sockets h.connected
    where
      given :
          (fd : ℕ) (fds : List ℕ)
          → AreConnected os config (fd ∷ fds) (frame os s.runner w)
          → (q : Queue ℕ) → next_socket s ≡ ok (fd, record s { socket_list = q })
          → Represents q (fds ++ fd ∷ [])
          → q.max_queue_size ≡ capacity
          → Faultless (new_message os s w) (λ t. Plays os config capacity t.0 t.1)
      given fd fds k q turn r size =
          let (i, at) = k.open_ones.0 in
          let b = Inv-HasBuffers config.message_size s.runner i at.c h.inv at.at at.valid in
          let s' : Client = record s { socket_list = q } in
          let found : lookup fd s.runner.connection_list ≡ some (some i) =
            rw (← at.same_fd) (h.inv.listed i at.c at.at at.valid) in
          let now = os.current_ticks w in
          rw (new_message-eq os s s' w fd i at.c b.read turn found at.at b.read_is b.read_slot) (
            Faultless->>=
              (queue_message (some i) i at.c (reserved b.read) b.read.last_msg_offset now.0 s') _ _
              _
              (queue_message-Plays i at.c (reserved b.read) now.0 s' w
                (turned-Plays s w fd fds q h.inv h.timed k r size) at.at at.valid
                (reserved-IsOneSlot b.read b.read_slot) b.read_size)
              (λ s'' p. same-Plays os config capacity s'' w now.1 p (tracks.ticks_same w)))

      turn :
          (fds : List ℕ)
          → Represents s.socket_list fds
          → AreConnected os config fds (frame os s.runner w)
          → Faultless (new_message os s w) (λ t. Plays os config capacity t.0 t.1)
      turn [] r k = rw (no_turn os s w no_elements (no_socket os s r)) tt
      turn (fd ∷ fds) r k = elim (next_socket_lem s fd fds r) [
        | inl (_, taken) ↦ given fd fds k taken.0 taken.1 taken.2 (taken.3 ∙ h.fits)
        | inr (_, thrown) ↦ rw (no_turn os s w no_space thrown) tt
      ]

  -- A send iteration, whether its time has come or not.
  pub send_iteration-Plays :
      TracksFds os
      → (current : ℤ) (s : Client) (schedule : Schedule) (w : os.World)
      → Plays os config capacity s w
      → Faultless (send_iteration os current s schedule w) (λ t. Plays os config capacity t.0 t.2)
  unfolding send_iteration
  send_iteration-Plays tracks current s schedule w h =
      Faultless-if (leb_ℤ schedule.next_send current) _ _ _
        (Faultless->>= (new_message os s w) _ _ _ (new_message-Plays tracks s w h)
          (λ t p. counted t.0 t.1 p))
        h
    where
      counted :
          (s' : Client) (w' : os.World)
          → Plays os config capacity s' w'
          → Plays os config capacity (record s' { tick_counter = add32 s'.tick_counter 1 }) w'
      counted s' w' p = record {
        inv = p.inv;
        timed = p.timed;
        fds = p.fds;
        sockets = p.sockets;
        fits = p.fits;
        connected = p.connected;
      }
