-- ===== src/Client/Iteration.antt =====
-- An iteration of the loop of the client.
use latency_under_load.Prelude.{
  ℕ, ◌*◌, ◌<◌, ◌∙◌, refl, sym, ap, subst, Bool, true, false, ok, ◌>>=◌, Safely-Returns, Faultless,
  Faultless->>=, Faultless-if, Faultless-Returns, Safely-Faultless, leb, if◌then◌else◌,
}
use latency_under_load.Queue.{Queue, size}
use latency_under_load.Queue
use latency_under_load.Queue.Refine.{Represents}
use latency_under_load.CBuffer.{max_queued_massage}
use latency_under_load.Config.{Config}
use latency_under_load.Ticks.{IsCounting, Calibration, Mode}
use latency_under_load.Client.{Client}
use latency_under_load.Client.Kept.{handle_reads-Stable, handle_writes-Stable}
use latency_under_load.Client.Loop.{
  Schedule, establish, start_sending, established, handle_reads, handle_replies, handle_writes,
  change_connections, wait_events, iteration,
}
use latency_under_load.Client.Loops.{handle_reads-Kept, handle_writes-Kept}
use latency_under_load.Client.Replies.{handle_replies-Faultless}
use latency_under_load.Client.Sockets.{connected-IsStable, handle_replies-AreConnected}
use latency_under_load.Client.Plays.{IsPlayable, Plays, same-Plays}
use latency_under_load.Client.Message.{send_iteration-Plays}
use latency_under_load.Client.Change.{change_connections-Plays}
use latency_under_load.Client.Events.{wait_events-Plays}
use latency_under_load.Os.{Os, IsOs, SameFds, TracksFds, ConnectsCleanly}

module _ (os : Os) (tracks : TracksFds os) (config : Config) (capacity : ℕ)
    (calibration : Calibration) (mode : Mode) where
  -- The sending begins once the sockets are connected.
  establish-Plays :
      (s : Client) (schedule : Schedule) (w : os.World)
      → Plays os config capacity s w
      → Plays os config capacity (establish os s schedule w).0 (establish os s schedule w).2
  unfolding establish
  establish-Plays s schedule w h =
      choose (if s.connection_is_established then false else leb n (Queue.size s.socket_list))
    where
      n : ℕ
      n = s.runner.config.number_connection

      started : Client × Schedule × os.World
      started = start_sending os s schedule (os.current_ticks w).0 (os.current_ticks w).1

      same_start : SameFds os w started.2
      same_start x =
          tracks.alarm_same _ _ x
          ∙ tracks.ticks_same (os.current_ticks w).1 x
          ∙ tracks.ticks_same w x

      started-Plays : Plays os config capacity started.0 started.2
      started-Plays =
          let k = same-Plays os config capacity s w started.2 h same_start in
          record {
            inv = k.inv;
            timed = k.timed;
            fds = k.fds;
            sockets = k.sockets;
            fits = k.fits;
            connected = k.connected;
          }

      choose :
          (b : Bool)
          → Plays os config capacity
              (if b then started else (s, schedule, w)).0
              (if b then started else (s, schedule, w)).2
      choose true = started-Plays
      choose false = h

  established-Plays :
      (s : Client) (schedule : Schedule) (w : os.World)
      → Plays os config capacity s w
      → Faultless
          (established os calibration mode s schedule w)
          (λ t. Plays os config capacity t.0 t.2)
  unfolding established
  established-Plays s schedule w h =
      let current = os.current_ticks w in
      Faultless-if s.connection_is_established _ _ _
        (Faultless->>= (change_connections os calibration mode current.0 s schedule current.1) _ _ _
          (change_connections-Plays os tracks config capacity calibration mode current.0 s schedule
            current.1 (same-Plays os config capacity s w current.1 h (tracks.ticks_same w)))
          (λ t p. send_iteration-Plays os config capacity tracks current.0 t.0 t.1 t.2 p))
        h

  module _ (playable : IsPlayable config capacity) (counting : IsCounting calibration mode)
      (clean : ConnectsCleanly os) (is_os : IsOs os) (fuel : ℕ)
      (enough : (w : os.World) (fd : ℕ) → os.pending w fd < fuel) where
    pub iteration-Plays :
        (s : Client) (schedule : Schedule) (w : os.World)
        → Plays os config capacity s w
        → Faultless
            (iteration os calibration mode fuel s schedule w)
            (λ t. Plays os config capacity t.0 t.2)
    unfolding iteration
    iteration-Plays s schedule w h =
        let m = config.message_size in
        Faultless->>= (handle_reads os fuel s.runner w) _ _ _
          (Safely-Faultless (handle_reads os fuel s.runner w) _ (
            Safely-Returns (handle_reads os fuel s.runner w) _ _
              (handle_reads-Kept m os is_os calibration mode fuel enough s.runner w h.inv h.timed)
              (handle_reads-Stable os _ (connected-IsStable os config h.fds tracks) fuel s.runner w
                h.connected)))
          (λ t₁ (kept₁, connected₁).
            Faultless->>= (handle_replies os calibration mode t₁.0 t₁.1) _ _ _
              (Faultless-Returns (handle_replies os calibration mode t₁.0 t₁.1) _ _
                (handle_replies-Faultless m calibration mode counting os t₁.0 t₁.1 kept₁.0 kept₁.1)
                (handle_replies-AreConnected os config h.fds calibration mode tracks t₁.0 t₁.1
                  connected₁))
              (λ t₂ (kept₂, connected₂).
                replied (record s { runner = t₂.0 }) schedule t₂.1
                  (record {
                    inv = kept₂.0;
                    timed = kept₂.1;
                    fds = h.fds;
                    sockets = h.sockets;
                    fits = h.fits;
                    connected = connected₂;
                  })))
      where
        -- The rest of an iteration, after the replies.
        written :
            (s₃ : Client) (schedule' : Schedule) (w₃ : os.World)
            → Plays os config capacity s₃ w₃
            → Faultless {A = Client × Schedule × os.World}
                (handle_writes os s₃ w₃ >>= λ t₄.
                  let answer =
                    os.epoll_wait t₄.1
                      (max_queued_massage * t₄.0.runner.config.number_connection) in
                  wait_events os calibration mode answer.0 t₄.0 answer.1 >>= λ t₅.
                  ok (t₅.0, schedule', t₅.1))
                (λ t. Plays os config capacity t.0 t.2)
        written s₃ schedule' w₃ p =
            Faultless->>= (handle_writes os s₃ w₃) _ _ _
              (Safely-Faultless (handle_writes os s₃ w₃) _ (
                Safely-Returns (handle_writes os s₃ w₃) _ _
                  (handle_writes-Kept config.message_size os is_os calibration mode fuel enough s₃
                    w₃ p.inv p.timed)
                  (handle_writes-Stable os _ (connected-IsStable os config p.fds tracks) s₃ w₃
                    p.connected)))
              (λ t₄ (kept, stay).
                let n = max_queued_massage * t₄.0.runner.config.number_connection in
                let answer = os.epoll_wait t₄.1 n in
                Faultless->>= (wait_events os calibration mode answer.0 t₄.0 answer.1) _ _ _
                  (wait_events-Plays os tracks config capacity playable calibration mode clean
                    answer.0 t₄.0 n t₄.1 answer.1
                    (record {
                      inv = kept.0;
                      timed = kept.1;
                      fds = p.fds;
                      sockets = subst (λ q. Represents q p.fds) (sym stay.1) p.sockets;
                      fits = ap (λ (q : Queue ℕ). q.max_queue_size) stay.1 ∙ p.fits;
                      connected = stay.0;
                    })
                    refl)
                  (λ t₅ q. q))

        replied :
            (s₂ : Client) (schedule : Schedule) (w₂ : os.World)
            → Plays os config capacity s₂ w₂
            → Faultless {A = Client × Schedule × os.World}
                (established os calibration mode
                    (establish os s₂ schedule w₂).0
                    (establish os s₂ schedule w₂).1
                    (establish os s₂ schedule w₂).2
                  >>= λ t₃. handle_writes os t₃.0 t₃.2 >>= λ t₄.
                      let answer =
                        os.epoll_wait t₄.1
                          (max_queued_massage * t₄.0.runner.config.number_connection) in
                      wait_events os calibration mode answer.0 t₄.0 answer.1 >>= λ t₅.
                      ok (t₅.0, t₃.1, t₅.1))
                (λ t. Plays os config capacity t.0 t.2)
        replied s₂ schedule w₂ p =
            let start = establish os s₂ schedule w₂ in
            Faultless->>= (established os calibration mode start.0 start.1 start.2) _ _ _
              (established-Plays start.0 start.1 start.2 (establish-Plays s₂ schedule w₂ p))
              (λ t₃ q. written t₃.0 t₃.1 t₃.2 q)
