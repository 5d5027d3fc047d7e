-- ===== src/Os.antt =====
-- The operating system as the program sees it. Nothing of it is implemented here: a world and the
-- calls on it are parameters, with what their documentation promises.
use latency_under_load.Prelude.{
  ℕ, ◌+◌, ◌≤◌, ◌<◌, ◌≡◌, ◌≢◌, Option, some, List, [], ◌∷◌, Bool, true, length,
}
use latency_under_load.Prelude.Int.{ℤ}

-- The values of `errno` that the program tells apart.
pub data Errno : Type 0 where
  eagain econnreset ebadf einprogress other : Errno

-- `recv`: some bytes, 0 when the peer has closed, or -1.
pub data Received : Type 0 where
  got : List ℕ → Received
  closed : Received
  failed : Errno → Received

-- `send`: the number of bytes taken, or -1.
pub data Sent : Type 0 where
  took : ℕ → Sent
  refused : Errno → Sent

-- `accept`: a file descriptor, with what `errno` was left at before, or -1.
pub data Accepted : Type 0 where
  conn : ℕ → Errno → Accepted
  not_accepted : Errno → Accepted

-- `connect`: 0, or -1.
pub data Connected : Type 0 where
  connected : Connected
  not_connected : Errno → Connected

-- An event of `epoll_wait`: its file descriptor, and whether it has `EPOLLOUT`.
pub record Event : Type 0 where
  pub fd : ℕ
  pub out : Bool

-- What a number is to the process: no open file descriptor, an open one, or one that is polled, for
-- `EPOLLOUT` or for `EPOLLIN`.
pub data Fd : Type 0 where
  shut idle : Fd
  polled : Bool → Fd

-- `true` is a call that has not returned -1. `epoll_add` is given whether it is for `EPOLLOUT`.
pub record Os : Type 1 where
  pub World : Type 0
  pub recv : World → ℕ → ℕ → Received × World
  pub send : World → ℕ → List ℕ → Sent × World
  pub epoll_add : World → ℕ → Bool → Bool × World
  pub epoll_del : World → ℕ → Bool × World
  pub epoll_wait : World → ℕ → Option (List Event) × World
  pub close : World → ℕ → Bool × World
  pub accept : World → ℕ → Accepted × World
  pub socket : World → Option ℕ × World
  pub bind : World → ℕ → Bool × World
  pub listen : World → ℕ → Bool × World
  pub epoll_create : World → ℕ → Option ℕ × World
  pub connect : World → ℕ → Connected × World
  pub setsockopt_rcvbuf : World → ℕ → ℕ → Bool × World
  pub setsockopt_sndbuf : World → ℕ → ℕ → Bool × World
  pub setsockopt_nodelay : World → ℕ → Bool × World
  pub fcntl_getfl : World → ℕ → Option ℕ × World
  pub fcntl_setfl : World → ℕ → ℕ → Bool × World
  pub alarm : World → ℕ → World
  pub current_ticks : World → ℤ × World
  -- The bytes that will arrive at a socket before `recv` first answers otherwise.
  pub pending : World → ℕ → ℕ
  pub fd_state : World → ℕ → Fd

-- What `recv` and `send` are documented to do: at most what is asked, and `recv` at least a byte.
-- The bytes that `recv` hands over were pending.
pub record IsOs (os : Os) : Type 0 where
  pub recv_bounds :
      (w : os.World) (fd n : ℕ) (bytes : List ℕ) (w' : os.World)
      → os.recv w fd n ≡ (got bytes, w')
      → (0 < length bytes)
        × (length bytes ≤ n)
        × (os.pending w' fd + length bytes ≤ os.pending w fd)
  pub send_bounds :
      (w : os.World) (fd : ℕ) (bytes : List ℕ) (k : ℕ) (w' : os.World)
      → os.send w fd bytes ≡ (took k, w')
      → k ≤ length bytes

-- A call that leaves the file descriptors as they were, and one that may change `fd`.
abbrev pub SameFds : (os : Os) → os.World → os.World → Type 0
SameFds os w w' = (x : ℕ) → os.fd_state w' x ≡ os.fd_state w x

abbrev pub SameBut : (os : Os) → ℕ → os.World → os.World → Type 0
SameBut os fd w w' = (x : ℕ) → x ≢ fd → os.fd_state w' x ≡ os.fd_state w x

abbrev pub Opens : (os : Os) → ℕ → os.World → os.World → Type 0
Opens os fd w w' = (os.fd_state w fd ≡ shut) × (os.fd_state w' fd ≡ idle) × SameBut os fd w w'

-- No event is of the file descriptor.
abbrev pub IsOther : ℕ → List Event → Type 0
IsOther fd [] = Unit
IsOther fd (e ∷ events) = (e.fd ≢ fd) × IsOther fd events

-- The events are of different file descriptors that are polled, with `EPOLLOUT` only where it is polled
-- for.
abbrev pub WerePolled : (os : Os) → os.World → List Event → Type 0
WerePolled os w [] = Unit
WerePolled os w (e ∷ events) =
    ((out : Bool) × (os.fd_state w e.fd ≡ polled out) × (e.out ≡ true → out ≡ true))
    × IsOther e.fd events
    × WerePolled os w events

-- No event of a file descriptor that is polled for `EPOLLOUT` comes without it, as one of an error
-- or a hang-up alone would.
abbrev pub AreWritable : (os : Os) → os.World → List Event → Type 0
AreWritable os w [] = Unit
AreWritable os w (e ∷ events) =
    (os.fd_state w e.fd ≡ polled true → e.out ≡ true) × AreWritable os w events

-- What the calls do to the file descriptors: a new one was not open before, one is polled from
-- `epoll_ctl` on until it is taken off or closed, and the events are of those that are polled.
pub record TracksFds (os : Os) : Type 0 where
  pub recv_same : (w : os.World) (fd n : ℕ) → SameFds os w (os.recv w fd n).1
  pub send_same : (w : os.World) (fd : ℕ) (bytes : List ℕ) → SameFds os w (os.send w fd bytes).1
  pub rcvbuf_same : (w : os.World) (fd n : ℕ) → SameFds os w (os.setsockopt_rcvbuf w fd n).1
  pub sndbuf_same : (w : os.World) (fd n : ℕ) → SameFds os w (os.setsockopt_sndbuf w fd n).1
  pub nodelay_same : (w : os.World) (fd : ℕ) → SameFds os w (os.setsockopt_nodelay w fd).1
  pub getfl_same : (w : os.World) (fd : ℕ) → SameFds os w (os.fcntl_getfl w fd).1
  pub setfl_same : (w : os.World) (fd n : ℕ) → SameFds os w (os.fcntl_setfl w fd n).1
  pub bind_same : (w : os.World) (fd : ℕ) → SameFds os w (os.bind w fd).1
  pub listen_same : (w : os.World) (fd : ℕ) → SameFds os w (os.listen w fd).1
  pub connect_same : (w : os.World) (fd : ℕ) → SameFds os w (os.connect w fd).1
  pub alarm_same : (w : os.World) (n : ℕ) → SameFds os w (os.alarm w n)
  pub ticks_same : (w : os.World) → SameFds os w (os.current_ticks w).1
  pub wait_same : (w : os.World) (n : ℕ) → SameFds os w (os.epoll_wait w n).1
  pub create_opens :
      (w : os.World) (n fd : ℕ) (w' : os.World)
      → os.epoll_create w n ≡ (some fd, w')
      → Opens os fd w w'
  pub socket_opens :
      (w : os.World) (fd : ℕ) (w' : os.World) → os.socket w ≡ (some fd, w') → Opens os fd w w'
  pub accept_opens :
      (w : os.World) (lfd fd : ℕ) (e : Errno) (w' : os.World)
      → os.accept w lfd ≡ (conn fd e, w')
      → Opens os fd w w'
  pub accept_same :
      (w : os.World) (lfd : ℕ) (e : Errno) (w' : os.World)
      → os.accept w lfd ≡ (not_accepted e, w')
      → SameFds os w w'
  pub add_polls :
      (w : os.World) (fd : ℕ) (out : Bool) (w' : os.World)
      → os.epoll_add w fd out ≡ (true, w')
      → (os.fd_state w' fd ≡ polled out) × SameBut os fd w w'
  pub del_stops :
      (w : os.World) (fd : ℕ)
      → ((out : Bool) → os.fd_state (os.epoll_del w fd).1 fd ≢ polled out)
        × SameBut os fd w (os.epoll_del w fd).1
  pub close_shuts :
      (w : os.World) (fd : ℕ)
      → (os.fd_state (os.close w fd).1 fd ≡ shut) × SameBut os fd w (os.close w fd).1
  pub wait_events :
      (w : os.World) (n : ℕ) (events : List Event) (w' : os.World)
      → os.epoll_wait w n ≡ (some events, w')
      → WerePolled os w events

-- A condition on what happens to the sockets, which the calls do not promise: none that waits for its
-- connection reports an error or a hang-up alone.
pub record ConnectsCleanly (os : Os) : Type 0 where
  pub wait_writable :
      (w : os.World) (n : ℕ) (events : List Event) (w' : os.World)
      → os.epoll_wait w n ≡ (some events, w')
      → AreWritable os w events
