-- ===== src/Runner/Kept.antt =====
-- What the handlers do with a message leaves alone: the file descriptors, and of a connection all
-- but its buffers. A property that depends on nothing else is kept by a round of the read loop.
use latency_under_load.Prelude.{
  ℕ, ◌≡◌, refl, none, some, Option, List, length, get_elem?, set, ok, err, faults, Returns, after,
  Returns->>=, ◌==◌, if◌then◌else◌, sub32,
}
use latency_under_load.Prelude.Memory.{write_bytes}
use latency_under_load.Queue
use latency_under_load.CBuffer.{
  Buffer, reserve_memory, increase_last_msg_offset, get_last_msg_offset,
}
use latency_under_load.Config.{Config}
use latency_under_load.Connection.{Connection, set_read_buffer, set_write_buffer, get_read_buffer}
use latency_under_load.Runner.{
  lookup, insert, connection_at, Runner, Pointer, Attempt, no_room, put_connection, deref,
  receive_reply, receive_at, receive_once,
}
use latency_under_load.Os.{Os, Received, got, closed, failed}

-- `*p` is what stands on the heap.
pub deref-Returns :
    (p : Pointer) (r : Runner) → Returns (deref p r) (λ t. get_elem? r.heap t.0 ≡ some t.1)
unfolding deref
deref-Returns none r = tt
deref-Returns (some i) r = found (get_elem? r.heap i) refl
  where
    found :
        (o : Option Connection)
        → get_elem? r.heap i ≡ o
        → Returns {A = ℕ × Connection}
            (elim o [ none ↦ err faults | some c ↦ ok (i, c) ])
            (λ t. get_elem? r.heap t.0 ≡ some t.1)
    found none e = tt
    found (some c) e = e

-- The connection that the map leads to.
pub found_at-Returns :
    (fd : ℕ) (r : Runner)
    → Returns (deref (connection_at fd r).0 (connection_at fd r).1) (λ t.
      (get_elem? r.heap t.0 ≡ some t.1)
      × (lookup fd r.connection_list ≡ some (some t.0))
      × ((connection_at fd r).1 ≡ r))
unfolding connection_at deref
found_at-Returns fd r = found (lookup fd r.connection_list) refl
  where
    at : Option Pointer → Pointer × Runner
    at o = elim o [
      | some p ↦ (p, r)
      | none ↦ (none, record r { connection_list = insert fd none r.connection_list })
    ]

    found :
        (o : Option Pointer)
        → lookup fd r.connection_list ≡ o
        → Returns {A = ℕ × Connection} (deref (at o).0 (at o).1) (λ t.
          (get_elem? r.heap t.0 ≡ some t.1)
          × (lookup fd r.connection_list ≡ some (some t.0))
          × ((at o).1 ≡ r))
    found none e = tt
    found (some none) e = tt
    found (some (some i)) e = stands (get_elem? r.heap i) refl
      where
        stands :
            (c : Option Connection)
            → get_elem? r.heap i ≡ c
            → Returns {A = ℕ × Connection}
                (elim c [ none ↦ err faults | some d ↦ ok (i, d) ])
                (λ t.
                  (get_elem? r.heap t.0 ≡ some t.1)
                  × (lookup fd r.connection_list ≡ some (some t.0))
                  × (r ≡ r))
        stands none at = tt
        stands (some d) at = (at, e, refl)

-- Connections that differ in their buffers at most.
pub record SameButBuffers (c c' : Connection) : Type 0 where
  pub same_fd : c'.fd ≡ c.fd
  pub same_valid : c'.valid ≡ c.valid
  pub same_sent : c'.unaknowledged_msgs ≡ c.unaknowledged_msgs
  pub same_times : c'.msgs_rtt ≡ c.msgs_rtt

pub record Frame (os : Os) : Type 0 where
  pub config : Config
  pub heap : List Connection
  pub connection_list : List (ℕ × Pointer)
  pub world : os.World

-- The part of a state that a property is about.
abbrev pub frame : (os : Os) → Runner → os.World → Frame os
frame os r w = record {
  config = r.config;
  heap = r.heap;
  connection_list = r.connection_list;
  world = w;
}

-- A property that other buffers, and the calls on a socket that is open, leave true.
pub record IsStable (os : Os) (P : Frame os → Type 0) : Type 0 where
  pub other_buffers :
      (f : Frame os) (i : ℕ) (c c' : Connection)
      → P f
      → get_elem? f.heap i ≡ some c
      → SameButBuffers c c'
      → P (record f { heap = set f.heap i c' })
  pub received : (f : Frame os) (fd n : ℕ) → P f → P (record f { world = (os.recv f.world fd n).1 })
  pub sent :
      (f : Frame os) (fd : ℕ) (bytes : List ℕ)
      → P f
      → P (record f { world = (os.send f.world fd bytes).1 })

module _ (os : Os) (P : Frame os → Type 0) (stable : IsStable os P) where
  -- The read buffer of a connection is no part of it.
  pub put_read-Stable :
      (i : ℕ) (c : Connection) (b : Buffer) (r : Runner) (w : os.World)
      → P (frame os r w)
      → get_elem? r.heap i ≡ some c
      → P (frame os (put_connection i (set_read_buffer b c) r) w)
  put_read-Stable i c b r w h at =
      stable.other_buffers (frame os r w) i c (set_read_buffer b c) h at
        (record { same_fd = refl; same_valid = refl; same_sent = refl; same_times = refl })

  -- Nor is the write buffer.
  pub put_write-Stable :
      (i : ℕ) (c : Connection) (b : Buffer) (r : Runner) (w : os.World)
      → P (frame os r w)
      → get_elem? r.heap i ≡ some c
      → P (frame os (put_connection i (set_write_buffer b c) r) w)
  put_write-Stable i c b r w h at =
      stable.other_buffers (frame os r w) i c (set_write_buffer b c) h at
        (record { same_fd = refl; same_valid = refl; same_sent = refl; same_times = refl })

  module _ (p : Pointer) (i : ℕ) (c : Connection) (r : Runner)
      (at : get_elem? r.heap i ≡ some c) where
    receive_reply-Stable :
        (b : Buffer) (a n : ℕ) (reply : Received) (w : os.World)
        → P (frame os r w)
        → Returns (receive_reply p i c b a n r reply) (λ t. P (frame os t.1 w))
    unfolding receive_reply
    receive_reply-Stable b a n (got bytes) w h = after (write_bytes b.buffer a bytes) _ _ (λ memory.
        after
          (if length bytes == n
            then Queue.push p r.readable_connection_list
            else ok r.readable_connection_list)
          _ _
          (λ q.
            let b' = increase_last_msg_offset (length bytes) (record b { buffer = memory }) in
            put_read-Stable i c b' r w h at))
    receive_reply-Stable b a n closed w h = put_read-Stable i c b r w h at
    receive_reply-Stable b a n (failed e) w h = put_read-Stable i c b r w h at

    receive_at-Stable :
        (b : Buffer) (a : ℕ) (w : os.World)
        → P (frame os r w)
        → Returns (receive_at os p i c b a r w) (λ t. P (frame os t.1 t.2))
    unfolding receive_at
    receive_at-Stable b a w h =
        let n = sub32 r.config.message_size (get_last_msg_offset b) in
        Returns->>= (receive_reply p i c b a n r (os.recv w c.fd n).0) _ _ _
          (receive_reply-Stable b a n (os.recv w c.fd n).0 (os.recv w c.fd n).1
            (stable.received (frame os r w) c.fd n h))
          (λ t k. k)

  pub receive_once-Stable :
      (p : Pointer) (r : Runner) (w : os.World)
      → P (frame os r w)
      → Returns (receive_once os p r w) (λ t. P (frame os t.1 t.2))
  unfolding receive_once
  receive_once-Stable p r w h = Returns->>= (deref p r) _ _ _ (deref-Returns p r) (λ t at.
      after (get_read_buffer t.1) _ _
        (λ b. after (reserve_memory b) _ _ (λ s. reserved s.0 s.1 t.0 t.1 at)))
    where
      reserved :
          (address : Option ℕ) (b : Buffer) (i : ℕ) (c : Connection)
          → get_elem? r.heap i ≡ some c
          → Returns {A = Attempt × Runner × os.World}
              (elim address [
                | some a ↦ receive_at os p i c b a r w
                | none ↦ ok (no_room, put_connection i (set_read_buffer b c) r, w)
              ])
              (λ t. P (frame os t.1 t.2))
      reserved (some a) b i c at = receive_at-Stable p i c r at b a w h
      reserved none b i c at = put_read-Stable i c b r w h at
