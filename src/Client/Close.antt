-- ===== src/Client/Close.antt =====
-- The end of `client_t::run`, which removes the connections of all sockets, and the end of extra
-- connections.
use latency_under_load.Prelude.{
  ℕ, zero, suc, ◌≤◌, ◌≡◌, refl, ◌∙◌, ◌≢◌, List, [], ◌∷◌, true, arith, length, get_elem?-set_ne, set,
  ok, ltb,
}
use latency_under_load.Queue.{size}
use latency_under_load.Queue.Refine.{Represents, pop-Represents, front-Represents}
use latency_under_load.Connection.{Connection}
use latency_under_load.Runner.{put_connection}
use latency_under_load.Runner.Inv.{Inv}
use latency_under_load.Runner.Receive.{IsValidAt, remove_connection-Inv}
use latency_under_load.Client.{Client}
use latency_under_load.Client.Loop.{close_oldest, close_all}
use latency_under_load.Os.{Os}

abbrev pub IsApart : ℕ → List ℕ → Type 0
IsApart fd [] = Unit
IsApart fd (x ∷ xs) = (fd ≢ x) × IsApart fd xs

-- The file descriptors are different, and each has a valid connection.
abbrev pub AreOpen : List Connection → List ℕ → Type 0
AreOpen heap [] = Unit
AreOpen heap (fd ∷ fds) = ((i : ℕ) × IsValidAt heap i fd) × IsApart fd fds × AreOpen heap fds

-- A change of the connection of one socket leaves that of another.
other_socket :
    (heap : List Connection) (i j fd fd' : ℕ) (c : Connection)
    → IsValidAt heap i fd
    → IsValidAt heap j fd'
    → fd ≢ fd'
    → IsValidAt (set heap i c) j fd'
other_socket heap i j fd fd' c k k' apart = record {
  c = k'.c;
  at = get_elem?-set_ne heap i j c different ∙ k'.at;
  valid = k'.valid;
  same_fd = k'.same_fd;
}
  where
    different : i ≢ j
    different same = apart (cc (same, k.at, k'.at, k.same_fd, k'.same_fd))

pub others-AreOpen :
    (heap : List Connection) (i fd : ℕ) (c : Connection) (fds : List ℕ)
    → IsValidAt heap i fd
    → IsApart fd fds
    → AreOpen heap fds
    → AreOpen (set heap i c) fds
others-AreOpen heap i fd c [] k apart open_ones = tt
others-AreOpen heap i fd c (x ∷ xs) k apart open_ones = (
  (open_ones.0.0, other_socket heap i open_ones.0.0 fd x c k open_ones.0.1 apart.0),
  open_ones.1,
  others-AreOpen heap i fd c xs k apart.1 open_ones.2,
)

-- A client whose sockets are `fds`.
pub record HasSockets (m : ℕ) (s : Client) (fds : List ℕ) : Type 0 where
  pub inv : Inv m s.runner
  pub sockets : Represents s.socket_list fds
  pub are_open : AreOpen s.runner.heap fds

module _ (m : ℕ) (os : Os) where
  -- The oldest connection is removed.
  close_oldest_lem :
      (s : Client) (w : os.World) (fd : ℕ) (fds : List ℕ)
      → HasSockets m s (fd ∷ fds)
      → (s' : Client) × (w' : os.World) × (close_oldest os (s, w) ≡ ok (s', w'))
        × HasSockets m s' fds
  unfolding close_oldest
  close_oldest_lem s w fd fds h =
      let (i, k) = h.are_open.0 in
      let (c, w', e, v, _) = remove_connection-Inv m os fd i s.runner w h.inv k in
      let (q, pops, r, _) = pop-Represents s.socket_list fd fds h.sockets in
      (
        record s { runner = put_connection i c s.runner; socket_list = q },
        w',
        rw (front-Represents s.socket_list fd fds h.sockets, e, pops) refl,
        record {
          inv = v;
          sockets = r;
          are_open = others-AreOpen s.runner.heap i fd c fds k h.are_open.1 h.are_open.2;
        },
      )

  pub close_all_lem :
      (fuel : ℕ) (s : Client) (w : os.World) (fds : List ℕ)
      → HasSockets m s fds
      → length fds ≤ fuel
      → (s' : Client) × (w' : os.World) × (close_all os fuel s w ≡ ok (s', w')) × HasSockets m s' []
  unfolding close_all size
  close_all_lem zero s w [] h le = (s, w, ground (arith, h.sockets.sized), h)
  close_all_lem zero s w (fd ∷ fds) h le = absurd (omega arith)
  close_all_lem (suc fuel) s w [] h le = (s, w, ground (arith, h.sockets.sized), h)
  close_all_lem (suc fuel) s w (fd ∷ fds) h le =
      let (s', w', e, h') = close_oldest_lem s w fd fds h in
      let (s'', w'', e', h'') = close_all_lem fuel s' w' fds h' (omega arith) in
      let more : ltb 0 s.socket_list.queue_size ≡ true = ground (arith, h.sockets.sized) in
      (s'', w'', rw (more, e, e') refl, h'')
