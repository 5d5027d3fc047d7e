-- ===== src/Client/Change.antt =====
-- The extra connections of the client, which are opened or closed in the middle of the test, and the
-- opening of its sockets.
use latency_under_load.Prelude.{
  ℕ, ◌≡◌, ◌∙◌, refl, sym, subst, length-set, some, none, Option, Bool, true, false, List, [], ◌∷◌,
  err, no_elements, ◌>>=◌, Returns, Returns->>=, after, Safely, Safely->>=, Safely-Returns,
  Faultless, Faultless->>=, Faultless-if, Safely-Faultless, if◌then◌else◌, times, times-Faultless,
}
use latency_under_load.Prelude.Int.{ℤ, leb_ℤ, ◌-ℤ◌}
use latency_under_load.Queue.Refine.{Represents, pop-Represents, front-Represents, front-nil}
use latency_under_load.Config.{Config, Extra, opening, closing, non, num_extra_connection}
use latency_under_load.Connection.{Connection, get_read_buffer, get_write_buffer}
use latency_under_load.Connection
use latency_under_load.Connection.Times.{other_buffers-IsTimed}
use latency_under_load.Ticks.{Calibration, Mode}
use latency_under_load.Runner.{
  Runner, deref, connection_at, remove_connection, check, set_socket_option,
}
use latency_under_load.Runner.Add.{set_socket_option-Safely}
use latency_under_load.Runner.Kept.{found_at-Returns, frame}
use latency_under_load.Runner.Mapped.{IsMapped}
use latency_under_load.Runner.Linked.{Linked, remove_connection-Linked, same-Linked, idle_apart}
use latency_under_load.Runner.Polled.{opened-Linked, polled-Linked}
use latency_under_load.Runner.Options.{set_socket_option_same}
use latency_under_load.Runner.Receive.{remove_connection-Inv}
use latency_under_load.Client.{Client, after_connect, open_new_socket, open_socket}
use latency_under_load.Client.Close.{others-AreOpen}
use latency_under_load.Client.Loop.{
  close_oldest, extra_connection, wants_extra, change_connections, Schedule,
}
use latency_under_load.Client.Replies.{AreTimed, set-AreTimed}
use latency_under_load.Client.Sockets.{AreConnected, IsConnecting}
use latency_under_load.Client.Plays.{Plays, same-Plays}
use latency_under_load.Os.{
  Os, Connected, connected, not_connected, eagain, econnreset, ebadf, einprogress, other, SameFds,
  Opens, TracksFds, idle,
}

module _ (os : Os) (tracks : TracksFds os) (config : Config) (fds : List ℕ) (r : Runner) where
  abbrev pub StayConnected : os.World → Type 0
  StayConnected w = AreConnected os config fds (frame os r w)

  with-Linked :
      (w w' : os.World)
      → StayConnected w
      → Linked os IsConnecting (frame os r w')
      → StayConnected w'
  with-Linked w w' h k = record {
    linked = k;
    open_ones = h.open_ones;
    same_config = h.same_config;
    mapped = h.mapped;
  }

  -- A socket that is waited for until it is connected.
  waited-AreConnected :
      (fd : ℕ) (w : os.World)
      → StayConnected w
      → os.fd_state w fd ≡ idle
      → (b : Bool) (w' : os.World) → os.epoll_add w fd true ≡ (b, w')
      → Safely (check os (b, w')) StayConnected
  waited-AreConnected fd w h idles false w' e = tt
  waited-AreConnected fd w h idles true w' e =
      let (on, same) = tracks.add_polls w fd true w' e in
      with-Linked w w' h (
        polled-Linked os IsConnecting fd true (frame os r w) w' h.linked refl
          (λ off. idle_apart false (sym idles ∙ off)) on same)

  after_connect-AreConnected :
      (fd : ℕ) (w : os.World)
      → StayConnected w
      → os.fd_state w fd ≡ idle
      → (reply : Connected) → Safely (after_connect os fd reply w) StayConnected
  unfolding after_connect
  after_connect-AreConnected fd w h idles connected = waited-AreConnected fd w h idles _ _ refl
  after_connect-AreConnected fd w h idles (not_connected einprogress) =
      waited-AreConnected fd w h idles _ _ refl
  after_connect-AreConnected fd w h idles (not_connected eagain) = tt
  after_connect-AreConnected fd w h idles (not_connected econnreset) = tt
  after_connect-AreConnected fd w h idles (not_connected ebadf) = tt
  after_connect-AreConnected fd w h idles (not_connected other) = tt

  opened-AreConnected :
      (c : Config) (fd : ℕ) (w w' : os.World)
      → StayConnected w
      → Opens os fd w w'
      → Safely
          (set_socket_option os c fd w' >>= λ w''.
            after_connect os fd (os.connect w'' fd).0 (os.connect w'' fd).1)
          StayConnected
  opened-AreConnected c fd w w' h handed =
      let h' =
        with-Linked w w' h (opened-Linked os IsConnecting fd (frame os r w) w' h.linked handed) in
      Safely->>= (set_socket_option os c fd w') _ _ _
        (Safely-Returns (set_socket_option os c fd w') _ _ (set_socket_option-Safely os c fd w')
          (set_socket_option_same os tracks c fd w'))
        (λ w'' same.
          let w₃ = (os.connect w'' fd).1 in
          let same' : SameFds os w' w₃ = λ x. tracks.connect_same w'' fd x ∙ same.1 x in
          after_connect-AreConnected fd w₃
            (with-Linked w' w₃ h' (same-Linked os IsConnecting (frame os r w') w₃ h'.linked same'))
            (same' fd ∙ handed.1) (os.connect w'' fd).0)

  -- The opening of a socket exits or goes on, and changes no connection.
  pub open_new_socket-AreConnected :
      (c : Config) (w : os.World) → StayConnected w → Safely (open_new_socket os c w) StayConnected
  unfolding open_new_socket open_socket
  open_new_socket-AreConnected c w h = handed (os.socket w).0 (os.socket w).1 refl
    where
      handed :
          (o : Option ℕ) (w' : os.World)
          → os.socket w ≡ (o, w')
          → Safely (open_socket os c o w') StayConnected
      handed none w' e = tt
      handed (some fd) w' e = opened-AreConnected c fd w w' h (tracks.socket_opens w fd w' e)

module _ (os : Os) (tracks : TracksFds os) where
  gone_times :
      (c : Connection)
      → Returns
          (Connection.remove_connection c)
          (λ g. (g.unaknowledged_msgs ≡ c.unaknowledged_msgs) × (g.msgs_rtt ≡ c.msgs_rtt))
  unfolding Connection.remove_connection
  gone_times c =
      after (get_read_buffer c) _ _ (λ b. after (get_write_buffer c) _ _ (λ b'. (refl, refl)))

  gone-AreTimed :
      (fd : ℕ) (r : Runner) (w : os.World)
      → AreTimed r.heap
      → Returns (remove_connection os fd r w) (λ t. AreTimed t.0.heap × (t.0.config ≡ r.config))
  unfolding remove_connection
  gone-AreTimed fd r w all =
      Returns->>= (deref (connection_at fd r).0 (connection_at fd r).1) _ _ _
        (found_at-Returns fd r)
        (λ t found.
          Returns->>= (Connection.remove_connection t.1) _ _ _ (gone_times t.1) (λ gone same.
            rw found.2 (
              set-AreTimed r.heap t.0 gone all
                  (other_buffers-IsTimed t.1 gone same.0 same.1 (all t.0 t.1 found.0)),
              refl,
            )))

  module _ (config : Config) (capacity : ℕ) where
    oldest-Plays :
        (s : Client) (w : os.World) (fd : ℕ) (fds : List ℕ)
        → Plays os config capacity s w
        → Represents s.socket_list (fd ∷ fds)
        → AreConnected os config (fd ∷ fds) (frame os s.runner w)
        → Safely (close_oldest os (s, w)) (λ t. Plays os config capacity t.0 t.1)
    unfolding close_oldest
    oldest-Plays s w fd fds h sockets k =
        let m = config.message_size in
        let r : Runner = s.runner in
        let (i, at) = k.open_ones.0 in
        let (c, w', e, v, _) = remove_connection-Inv m os fd i r w h.inv at in
        let (q, pops, rest, size) = pop-Represents s.socket_list fd fds sockets in
        let open_ones = others-AreOpen r.heap i fd c fds at k.open_ones.1 k.open_ones.2 in
        let linked = rw e at (remove_connection-Linked os IsConnecting tracks fd r w k.linked) in
        let timed = rw e at (gone-AreTimed fd r w h.timed) in
        rw (front-Represents s.socket_list fd fds sockets, e, pops)
          (record {
            inv = v;
            timed = timed.0;
            fds = fds;
            sockets = rest;
            fits = size ∙ h.fits;
            connected = record {
              linked = linked;
              open_ones = open_ones;
              same_config = timed.1 ∙ k.same_config;
              mapped =
                  subst (λ n. IsMapped n r.connection_list) (sym (length-set r.heap i c)) k.mapped;
            };
          })

    no_oldest :
        (s : Client) (w : os.World)
        → Represents s.socket_list []
        → close_oldest os (s, w) ≡ err no_elements
    unfolding close_oldest
    no_oldest s w r = rw (front-nil s.socket_list r) refl

    pub close_oldest-Plays :
        (s : Client) (w : os.World)
        → Plays os config capacity s w
        → Faultless (close_oldest os (s, w)) (λ t. Plays os config capacity t.0 t.1)
    close_oldest-Plays s w h = oldest h.fds h.sockets h.connected
      where
        oldest :
            (fds : List ℕ)
            → Represents s.socket_list fds
            → AreConnected os config fds (frame os s.runner w)
            → Faultless (close_oldest os (s, w)) (λ t. Plays os config capacity t.0 t.1)
        oldest [] sockets k = rw (no_oldest s w sockets) tt
        oldest (fd ∷ fds) sockets k =
            Safely-Faultless (close_oldest os (s, w)) _ (oldest-Plays s w fd fds h sockets k)

    extra_connection-Plays :
        (op : Extra) (s : Client) (w : os.World)
        → Plays os config capacity s w
        → Faultless (extra_connection os op (s, w)) (λ t. Plays os config capacity t.0 t.1)
    unfolding extra_connection
    extra_connection-Plays opening s w h =
        Faultless->>= (open_new_socket os s.runner.config w) _ _ _
          (Safely-Faultless (open_new_socket os s.runner.config w) _ (
            open_new_socket-AreConnected os tracks config h.fds s.runner s.runner.config w
              h.connected))
          (λ w' k. record {
            inv = h.inv;
            timed = h.timed;
            fds = h.fds;
            sockets = h.sockets;
            fits = h.fits;
            connected = k;
          })
    extra_connection-Plays closing s w h = close_oldest-Plays s w h
    extra_connection-Plays non s w h = close_oldest-Plays s w h

    -- The extra connections, whether their time has come or not.
    pub change_connections-Plays :
        (calibration : Calibration) (mode : Mode) (current : ℤ) (s : Client) (schedule : Schedule)
        (w : os.World)
        → Plays os config capacity s w
        → Faultless
            (change_connections os calibration mode current s schedule w)
            (λ t. Plays os config capacity t.0 t.2)
    unfolding change_connections
    change_connections-Plays calibration mode current s schedule w h =
        let extra = s.runner.config.extra_op in
        let due = leb_ℤ schedule.new_connection_period (current -ℤ schedule.last_conn) in
        Faultless-if (if wants_extra os extra then due else false) _ _ _
          (Faultless->>= (times num_extra_connection (extra_connection os extra) (s, w)) _ _ _
            (times-Faultless (λ _ t. Plays os config capacity t.0 t.1) _
              (λ n t p. extra_connection-Plays extra t.0 t.1 p) num_extra_connection (s, w) h)
            (λ t p. same-Plays os config capacity t.0 t.1 _ p (tracks.ticks_same t.1)))
          h
