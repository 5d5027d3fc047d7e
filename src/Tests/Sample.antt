-- ===== src/Tests/Sample.antt =====
-- A small system, and runners on it, at which the theorems about the server and the client are
-- applied.
use latency_under_load.Prelude.{
  ℕ, zero, suc, ◌+◌, ◌≤◌, ◌<◌, ◌≡◌, refl, Bool, true, false, List, [], ◌∷◌, none, some, arith,
  length, inl, Option, if◌then◌else◌, ◌==◌,
}
use latency_under_load.Prelude.Int.{pos}
use latency_under_load.Queue.{Queue}
use latency_under_load.Queue.Refine.{Represents}
use latency_under_load.Config.{Config, non}
use latency_under_load.Runner.{Runner, Pointer, new_runner}
use latency_under_load.Runner.Inv.{Inv, IsHeld}
use latency_under_load.Runner.Add.{IsFresh, grown, grown-Inv}
use latency_under_load.Server.Run.{new_runner-Inv}
use latency_under_load.Os.{
  Os, IsOs, Received, got, failed, Sent, took, Accepted, conn, not_accepted, connected, Errno,
  eagain, other, Event, Fd, shut, idle, polled, SameFds, SameBut, Opens, IsOther, WerePolled,
  AreWritable, ConnectsCleanly, TracksFds,
}

-- A world: whether a byte is pending, what each number is to the process, and the number that the
-- next file descriptor gets.
pub record SampleWorld : Type 0 where
  pub bytes : Bool
  pub state : ℕ → Fd
  pub next : ℕ

abbrev put_state : SampleWorld → ℕ → Fd → SampleWorld
put_state w fd v = record w { state = λ x. if x == fd then v else w.state x }

-- One byte is pending, or none.
abbrev recv_byte : Bool → ℕ → Received × Bool
recv_byte true zero = (failed eagain, true)
recv_byte true (suc n) = (got (7 ∷ []), false)
recv_byte false n = (failed eagain, false)

abbrev pending_bytes : Bool → ℕ
pending_bytes true = 1
pending_bytes false = 0

-- A file descriptor is handed out only if it is not open.
abbrev open_next : SampleWorld → Fd → Option ℕ × SampleWorld
open_next w shut = (some w.next, record (put_state w w.next idle) { next = w.next + 1 })
open_next w idle = (none, w)
open_next w (polled out) = (none, w)

abbrev accepted : Option ℕ × SampleWorld → Accepted × SampleWorld
accepted (some fd, w) = (conn fd other, w)
accepted (none, w) = (not_accepted other, w)

-- There is an event of a file descriptor as long as it is polled.
abbrev watched : ℕ → Fd → List Event → List Event
watched fd shut events = events
watched fd idle events = events
watched fd (polled out) events = record { fd = fd; out = out } ∷ events

abbrev pub sample_os : Os
sample_os = record {
  World = SampleWorld;
  recv = λ w fd n. (let t = recv_byte w.bytes n in (t.0, record w { bytes = t.1 }));
  send = λ w fd bytes. (took (length bytes), w);
  epoll_add = λ w fd out. (true, put_state w fd (polled out));
  epoll_del = λ w fd. (true, put_state w fd idle);
  epoll_wait = λ w n. (some (watched 6 (w.state 6) (watched 7 (w.state 7) [])), w);
  close = λ w fd. (true, put_state w fd shut);
  accept = λ w lfd. accepted (open_next w (w.state w.next));
  socket = λ w. open_next w (w.state w.next);
  bind = λ w fd. (true, w);
  listen = λ w fd. (true, w);
  epoll_create = λ w n. open_next w (w.state w.next);
  connect = λ w fd. (connected, w);
  setsockopt_rcvbuf = λ w fd n. (true, w);
  setsockopt_sndbuf = λ w fd n. (true, w);
  setsockopt_nodelay = λ w fd. (true, w);
  fcntl_getfl = λ w fd. (some 2, w);
  fcntl_setfl = λ w fd flags. (true, w);
  alarm = λ w n. w;
  current_ticks = λ w. (pos 1000, w);
  pending = λ w fd. pending_bytes w.bytes;
  fd_state = λ w fd. w.state fd;
}

-- Nothing is open, and a byte is pending.
abbrev pub start_world : SampleWorld
start_world = record { bytes = true; state = λ x. shut; next = 5 }

recv_byte_bounds :
    (b : Bool) (n : ℕ) (bytes : List ℕ) (b' : Bool)
    → ◌≡◌ {A = Received × Bool} (recv_byte b n) (got bytes, b')
    → (0 < length bytes) × (length bytes ≤ n) × (pending_bytes b' + length bytes ≤ pending_bytes b)
recv_byte_bounds true zero bytes b' e = cc
recv_byte_bounds true (suc n) bytes b' e = ground arith
recv_byte_bounds false n bytes b' e = cc

took_bounds :
    (w w' : SampleWorld) (bytes : List ℕ) (k : ℕ)
    → ◌≡◌ {A = Sent × SampleWorld} (took (length bytes), w) (took k, w')
    → k ≤ length bytes
took_bounds w w' bytes k e = ground arith

pub sample-IsOs : IsOs sample_os
sample-IsOs = record {
  recv_bounds = λ w fd n bytes w' e. recv_byte_bounds w.bytes n bytes w'.bytes cc;
  send_bounds = λ w fd bytes k w' e. took_bounds w w' bytes k e;
}

pending_bytes_few : (b : Bool) → pending_bytes b < 2
pending_bytes_few true = omega arith
pending_bytes_few false = omega arith

pub pending_few : (w : SampleWorld) (fd : ℕ) → pending_bytes w.bytes < 2
pending_few w fd = pending_bytes_few w.bytes

put_state_lem :
    (w : SampleWorld) (fd : ℕ) (v : Fd)
    → ((put_state w fd v).state fd ≡ v) × SameBut sample_os fd w (put_state w fd v)
put_state_lem w fd v = (ground arith, λ x ne. ground arith)

open_next_lem :
    (w : SampleWorld) (s : Fd) (fd : ℕ) (w' : SampleWorld)
    → w.state w.next ≡ s
    → ◌≡◌ {A = Option ℕ × SampleWorld} (open_next w s) (some fd, w')
    → Opens sample_os fd w w'
open_next_lem w shut fd w' h e = ground arith
open_next_lem w idle fd w' h e = cc
open_next_lem w (polled out) fd w' h e = cc

accepted-conn :
    (t : Option ℕ × SampleWorld) (fd : ℕ) (e : Errno) (w' : SampleWorld)
    → ◌≡◌ {A = Accepted × SampleWorld} (accepted t) (conn fd e, w')
    → t ≡ (some fd, w')
accepted-conn (some x, w) fd e w' h = ground arith
accepted-conn (none, w) fd e w' h = cc

accept_nothing :
    (w : SampleWorld) (s : Fd) (e : Errno) (w' : SampleWorld)
    → ◌≡◌ {A = Accepted × SampleWorld} (accepted (open_next w s)) (not_accepted e, w')
    → SameFds sample_os w w'
accept_nothing w shut e w' h x = cc
accept_nothing w idle e w' h x = ground arith
accept_nothing w (polled out) e w' h x = ground arith

watched-WerePolled :
    (w : SampleWorld) (fd : ℕ) (s : Fd) (events : List Event)
    → w.state fd ≡ s
    → IsOther fd events
    → WerePolled sample_os w events
    → WerePolled sample_os w (watched fd s events)
watched-WerePolled w fd shut events e others all = all
watched-WerePolled w fd idle events e others all = all
watched-WerePolled w fd (polled out) events e others all = ((out, e, λ writes. writes), others, all)

watched-IsOther : (s : Fd) → IsOther 6 (watched 7 s [])
watched-IsOther shut = tt
watched-IsOther idle = tt
watched-IsOther (polled out) = ((λ e. omega arith), tt)

sample_events :
    (w : SampleWorld) → WerePolled sample_os w (watched 6 (w.state 6) (watched 7 (w.state 7) []))
sample_events w =
    watched-WerePolled w 6 (w.state 6) _ refl (watched-IsOther (w.state 7))
      (watched-WerePolled w 7 (w.state 7) [] refl tt tt)

pub sample-TracksFds : TracksFds sample_os
sample-TracksFds = record {
  recv_same = λ w fd n x. refl;
  send_same = λ w fd bytes x. refl;
  rcvbuf_same = λ w fd n x. refl;
  sndbuf_same = λ w fd n x. refl;
  nodelay_same = λ w fd x. refl;
  getfl_same = λ w fd x. refl;
  setfl_same = λ w fd n x. refl;
  bind_same = λ w fd x. refl;
  listen_same = λ w fd x. refl;
  connect_same = λ w fd x. refl;
  alarm_same = λ w n x. refl;
  ticks_same = λ w x. refl;
  wait_same = λ w n x. refl;
  create_opens = λ w n fd w' e. open_next_lem w (w.state w.next) fd w' refl e;
  socket_opens = λ w fd w' e. open_next_lem w (w.state w.next) fd w' refl e;
  accept_opens = λ w lfd fd e w' h.
      open_next_lem w (w.state w.next) fd w' refl
        (accepted-conn (open_next w (w.state w.next)) fd e w' h);
  accept_same = λ w lfd e w' h. accept_nothing w (w.state w.next) e w' h;
  add_polls = λ w fd out w' e. ground (arith, put_state_lem w fd (polled out));
  del_stops = λ w fd. (λ out h. ground arith, (put_state_lem w fd idle).1);
  close_shuts = λ w fd. put_state_lem w fd shut;
  wait_events = λ w n events w' e. ground (arith, sample_events w);
}

watched-AreWritable :
    (w : SampleWorld) (fd : ℕ) (s : Fd) (events : List Event)
    → w.state fd ≡ s
    → AreWritable sample_os w events
    → AreWritable sample_os w (watched fd s events)
watched-AreWritable w fd shut events e all = all
watched-AreWritable w fd idle events e all = all
watched-AreWritable w fd (polled true) events e all = ((λ h. refl), all)
watched-AreWritable w fd (polled false) events e all = ((λ h. cc), all)

sample_writable :
    (w : SampleWorld) → AreWritable sample_os w (watched 6 (w.state 6) (watched 7 (w.state 7) []))
sample_writable w =
    watched-AreWritable w 6 (w.state 6) _ refl (watched-AreWritable w 7 (w.state 7) [] refl tt)

pub sample-ConnectsCleanly : ConnectsCleanly sample_os
sample-ConnectsCleanly = record {
  wait_writable = λ w n events w' e. ground (arith, sample_writable w);
}

-- A server for messages of 8 bytes.
abbrev pub sample_config : Config
sample_config = record {
  server = true;
  server_ip = "127.0.0.1";
  server_port = 5000;
  message_size = 8;
  mps = 1;
  period = 1;
  number_connection = 1;
  warm = 0;
  tcp_nodelay = false;
  extra_op = non;
}

-- A queue that holds the pointer to the first connection.
abbrev pub one_entry : Queue Pointer
one_entry = record {
  max_queue_size = 3;
  element_list = some (some 0) ∷ none ∷ none ∷ [];
  first_element_index = 0;
  last_element_index = 1;
  queue_size = 1;
}

pub one_entry-Represents : Represents one_entry (some 0 ∷ [])
one_entry-Represents = record {
  sized = refl;
  fits = omega arith;
  small = omega arith;
  cells = refl;
  first_in = omega arith;
  last_in = omega arith;
  last_at = inl refl;
  held = (refl, tt);
}

pub one_entry-IsHeld : IsHeld 1 one_entry
one_entry-IsHeld = record {
  held = some 0 ∷ [];
  represents = one_entry-Represents;
  inside = (omega arith, tt);
}

-- A runner with one connection, which stands in each of the three queues.
abbrev pub serving : Runner
serving = record (grown 5 (new_runner sample_config)) {
  readable_socket_list = one_entry;
  readable_connection_list = one_entry;
  writable_socket_list = one_entry;
}

pub sample-Inv : Inv 8 (new_runner sample_config)
sample-Inv = new_runner-Inv sample_config (omega arith) (omega arith)

pub sample-IsFresh : IsFresh 5 (new_runner sample_config)
unfolding new_runner
sample-IsFresh i c e live = cc

pub serving-Inv : Inv 8 serving
unfolding new_runner
serving-Inv =
    let v =
      grown-Inv 8 5 (new_runner sample_config) sample-Inv sample-IsFresh (omega arith)
        (omega arith) in
    record {
      message = v.message;
      buffers = v.buffers;
      listed = v.listed;
      writable = one_entry-IsHeld;
      readable = one_entry-IsHeld;
      complete = one_entry-IsHeld;
    }
