-- ===== src/Client/Connect.antt =====
-- A socket of the client that has been connected, and its new connection.
use native.Mathlib.Decide.{dec_lt}
use latency_under_load.Prelude.{
  ℕ, ◌*◌, ◌/◌, ◌<◌, ◌≤◌, ◌≡◌, ◌≢◌, ◌∙◌, refl, sym, ap, subst, inl, inr, Bool, true, false, List, [],
  ◌∷◌, ◌++◌, arith, length, length-append, get_elem?-append_cases, get_elem?-append,
  get_elem?-append_end, ok, Returns, after, Safely, Safely-mono, Safely-Returns, Faultless,
  Faultless->>=, Safely-Faultless, ne→==_false, mul32, u32_mod,
}
use latency_under_load.Prelude.Int.{ℤ, pos}
use latency_under_load.Queue.{Queue, new_queue, size}
use latency_under_load.Queue.Refine.{Represents, push-Represents, push-full, new_queue-Represents}
use latency_under_load.Config.{Config}
use latency_under_load.Connection.{Connection, new_connection, rtt_queue_size}
use latency_under_load.Connection.Times.{IsTimed}
use latency_under_load.Ticks.{Calibration, Mode, nsec_in_sec, nsec2ticks}
use latency_under_load.Runner.{Runner, check, add_new_connection}
use latency_under_load.Runner.Add.{IsFresh, grown, length-grown, add_new_connection-Inv}
use latency_under_load.Runner.Inv.{Inv}
use latency_under_load.Runner.Kept.{frame}
use latency_under_load.Runner.Mapped.{IsMapped, insert-IsMapped}
use latency_under_load.Runner.Polled.{stopped-Linked, add_new_connection-Linked}
use latency_under_load.Runner.Receive.{IsValidAt}
use latency_under_load.Client.{Client, period_of, connect_new_socket}
use latency_under_load.Client.Close.{IsApart, AreOpen}
use latency_under_load.Client.Message.{append-AreOpen}
use latency_under_load.Client.Replies.{AreTimed}
use latency_under_load.Client.Sockets.{AreConnected, IsConnecting}
use latency_under_load.Client.Plays.{IsPlayable, Plays}
use latency_under_load.Os.{Os, SameBut, TracksFds, polled}

polled_apart : polled true ≢ polled false
polled_apart e = cc

module _ (config : Config) (capacity : ℕ) (playable : IsPlayable config capacity) where
  -- A new connection has its queues for times.
  new_connection-IsTimed :
      (c : Config) (fd index : ℕ) → c ≡ config → IsTimed (new_connection c fd index)
  unfolding new_connection
  new_connection-IsTimed c fd index e =
      rw (e, playable.of_client)
        (
          [],
          [],
          record {
            sent = new_queue (rtt_queue_size config);
            times = new_queue (rtt_queue_size config);
            sent_is = refl;
            times_is = refl;
            sent_list = new_queue-Represents _ playable.some_times playable.times_fit;
            times_list = new_queue-Represents _ playable.some_times playable.times_fit;
          },
        )

  grown-AreTimed :
      (fd : ℕ) (r : Runner) → r.config ≡ config → AreTimed r.heap → AreTimed (grown fd r).heap
  grown-AreTimed fd r e all j d at = elim (get_elem?-append_cases r.heap _ j d at) [
    | inl (_, is) ↦
        subst IsTimed (sym is) (new_connection-IsTimed r.config fd (length r.connection_list) e)
    | inr old ↦ all j d old
  ]

-- A connection that is added leaves those that are there.
append-IsValidAt :
    (heap : List Connection) (c : Connection) (i fd : ℕ)
    → IsValidAt heap i fd
    → IsValidAt (heap ++ c ∷ []) i fd
append-IsValidAt heap c i fd k = record {
  c = k.c;
  at = get_elem?-append heap c i k.c k.at;
  valid = k.valid;
  same_fd = k.same_fd;
}

grown-AreOpen :
    (heap : List Connection) (c : Connection) (fds : List ℕ)
    → AreOpen heap fds
    → AreOpen (heap ++ c ∷ []) fds
grown-AreOpen heap c [] h = tt
grown-AreOpen heap c (fd ∷ fds) h =
    ((h.0.0, append-IsValidAt heap c h.0.0 fd h.0.1), h.1, grown-AreOpen heap c fds h.2)

new_IsValidAt : (fd : ℕ) (r : Runner) → IsValidAt (grown fd r).heap (length r.heap) fd
unfolding new_connection
new_IsValidAt fd r = record {
  c = new_connection r.config fd (length r.connection_list);
  at = get_elem?-append_end r.heap _;
  valid = refl;
  same_fd = refl;
}

-- A file descriptor that no valid connection has is apart from the sockets.
fresh-IsApart :
    (r : Runner) (fd : ℕ) (fds : List ℕ) → IsFresh fd r → AreOpen r.heap fds → IsApart fd fds
fresh-IsApart r fd [] fresh h = tt
fresh-IsApart r fd (x ∷ fds) fresh h = (
  λ e. fresh h.0.0 h.0.1.c h.0.1.at h.0.1.valid (h.0.1.same_fd ∙ sym e),
  fresh-IsApart r fd fds fresh h.2,
)

pub period_of_lem :
    (calibration : Calibration) (mode : Mode) (n : ℕ)
    → n ≢ 0
    → (p : ℤ) × (period_of calibration mode n ≡ ok p)
unfolding period_of
period_of_lem calibration mode n ne =
    (nsec2ticks calibration mode (pos (nsec_in_sec / n)), rw (ne→==_false n 0 ne) refl)

-- The messages of a second, of at least one socket and at most as many as there is room for.
rate_not_zero :
    (mps sockets capacity : ℕ)
    → 0 < mps
    → 0 < sockets
    → sockets ≤ capacity
    → mps * capacity < u32_mod
    → mul32 mps sockets ≢ 0
rate_not_zero mps sockets capacity some_messages some_sockets few fits = grind arith

module _ (os : Os) (tracks : TracksFds os) (config : Config) (capacity : ℕ)
    (playable : IsPlayable config capacity) where
  added_grown :
      (fd : ℕ) (r : Runner) (w : os.World)
      → Returns (add_new_connection os fd r w) (λ t. t.0 ≡ grown fd r)
  unfolding add_new_connection
  added_grown fd r w = after (check os (os.epoll_add w fd false)) _ _ (λ w'. refl)

  -- The socket's connection, once the socket is not polled any more.
  added-Plays :
      (fd : ℕ) (fds : List ℕ) (s : Client) (q : Queue ℕ) (period : ℤ) (w : os.World)
      → Inv config.message_size s.runner
      → AreTimed s.runner.heap
      → AreConnected os config fds (frame os s.runner w)
      → IsFresh fd s.runner
      → ((out : Bool) → os.fd_state w fd ≢ polled out)
      → Represents q (fds ++ fd ∷ [])
      → q.max_queue_size ≡ capacity
      → Safely (add_new_connection os fd s.runner w) (λ t.
        Plays os config capacity
          (record s { runner = t.0; socket_list = q; send_period = period })
          t.1
        × SameBut os fd w t.1)
  added-Plays fd fds s q period w v all k fresh off sockets fits =
      let m = config.message_size in
      let r : Runner = s.runner in
      Safely-mono (add_new_connection os fd r w) _ _
        (Safely-Returns (add_new_connection os fd r w) _ _
          (Safely-Returns (add_new_connection os fd r w) _ _
            (add_new_connection-Inv m fd r v fresh playable.some_bytes playable.buffers_fit os w)
            (add_new_connection-Linked os IsConnecting tracks fd r w k.linked off))
          (added_grown fd r w))
        (λ t h. (
          record {
            inv = h.0.0.0;
            timed =
                subst (λ (x : Runner). AreTimed x.heap) (sym h.1)
                  (grown-AreTimed config capacity playable fd r k.same_config all);
            fds = fds ++ fd ∷ [];
            sockets = sockets;
            fits = fits;
            connected = record {
              linked = h.0.1.0;
              open_ones =
                  subst (λ (x : Runner). AreOpen x.heap (fds ++ fd ∷ [])) (sym h.1)
                    (append-AreOpen (grown fd r).heap fd fds (length r.heap, new_IsValidAt fd r)
                      (fresh-IsApart r fd fds fresh k.open_ones)
                      (grown-AreOpen r.heap _ fds k.open_ones));
              same_config = ap (λ (x : Runner). x.config) h.1 ∙ k.same_config;
              mapped =
                  subst (λ (x : Runner). IsMapped (length x.heap) x.connection_list) (sym h.1)
                    (subst (λ n. IsMapped n (grown fd r).connection_list) (sym (length-grown fd r))
                      (insert-IsMapped (length r.heap) fd r.connection_list k.mapped));
            };
          },
          h.0.1.1,
        ))

  pub connect_new_socket-Plays :
      (calibration : Calibration) (mode : Mode) (fd : ℕ) (s : Client) (w : os.World)
      → Plays os config capacity s w
      → os.fd_state w fd ≡ polled true
      → Faultless
          (connect_new_socket os calibration mode fd s w)
          (λ t. Plays os config capacity t.0 t.1 × SameBut os fd w t.1)
  unfolding connect_new_socket size
  connect_new_socket-Plays calibration mode fd s w h on =
      elim (dec_lt (length h.fds) s.socket_list.max_queue_size) [
        | yes room ↦
            let (q, e, r, size) = push-Represents fd s.socket_list h.fds h.sockets room in
            let m = s.runner.config.mps in
            let nonzero : mul32 m q.queue_size ≢ 0 =
              subst (λ (c : Config). mul32 c.mps q.queue_size ≢ 0) (sym h.connected.same_config)
                (rate_not_zero config.mps q.queue_size capacity playable.some_messages
                  (omega (arith, r.sized, length-append h.fds (fd ∷ [])))
                  (omega (arith, r.sized, r.fits, size, h.fits)) playable.sends_fit) in
            let (period, e') = period_of_lem calibration mode (mul32 m q.queue_size) nonzero in
            let (stops, same) = tracks.del_stops w fd in
            let w' = (os.epoll_del w fd).1 in
            let off : os.fd_state w fd ≢ polled false = λ e. polled_apart (sym on ∙ e) in
            let fresh : IsFresh fd s.runner = λ i c at live here.
              off (ap (os.fd_state w) (sym here) ∙ h.connected.linked.opens i c at live) in
            let k : AreConnected os config h.fds (frame os s.runner w') = record {
              linked =
                  stopped-Linked os IsConnecting fd (frame os s.runner w) w' h.connected.linked off
                    stops same;
              open_ones = h.connected.open_ones;
              same_config = h.connected.same_config;
              mapped = h.connected.mapped;
            } in
            rw (e, e')
              (Faultless->>= (add_new_connection os fd s.runner w') _ _ _
                (Safely-Faultless (add_new_connection os fd s.runner w') _ (
                  added-Plays fd h.fds s q period w' h.inv h.timed k fresh stops r (size ∙ h.fits)))
                (λ t p. (p.0, λ x ne. p.1 x ne ∙ same x ne)))
        | no full ↦ rw (push-full fd s.socket_list h.fds h.sockets (omega arith)) tt
      ]
