-- ===== src/Client/Whole.antt =====
-- The whole loop of the client, from its constructor to the closing of its connections.
use latency_under_load.Prelude.{
  ℕ, zero, suc, ◌<◌, [], arith, ok, ◌>>=◌, Faultless, Faultless->>=, Faultless-Returns, Returns,
  Returns->>=, Returns-if, returned, Faultless-mono, ltb, err, out_of_fuel,
}
use latency_under_load.Queue.{Queue, size}
use latency_under_load.Queue
use latency_under_load.Config.{Config}
use latency_under_load.Ticks.{IsCounting, Calibration, Mode}
use latency_under_load.Client.{Client}
use latency_under_load.Client.Close.{HasSockets, close_all_lem}
use latency_under_load.Client.Loop.{
  Schedule, iteration, iterations, close_all, close_oldest, run, first_schedule,
}
use latency_under_load.Client.Plays.{IsPlayable, Plays}
use latency_under_load.Client.Change.{close_oldest-Plays}
use latency_under_load.Client.Opened.{
  opened_config, IsSending, sockets_fit, sending-IsPlayable, start_client-Plays,
}
use latency_under_load.Client.Reported.{IsReported, IsMapped-IsReported}
use latency_under_load.Client.Start.{start_client}
use latency_under_load.Runner.Quiet.{IsQuiet}
use latency_under_load.Os.{Os, IsOs, TracksFds, ConnectsCleanly}
use latency_under_load.Client.Iteration.{iteration-Plays}

module _ (os : Os) (tracks : TracksFds os) (config : Config) (capacity : ℕ)
    (calibration : Calibration) (mode : Mode) (playable : IsPlayable config capacity)
    (counting : IsCounting calibration mode) (clean : ConnectsCleanly os) (is_os : IsOs os)
    (fuel : ℕ) (enough : (w : os.World) (fd : ℕ) → os.pending w fd < fuel) where
  iterations-Plays :
      (n : ℕ) (s : Client) (schedule : Schedule) (w : os.World)
      → Plays os config capacity s w
      → Faultless
          (iterations os calibration mode n fuel s schedule w)
          (λ t. Plays os config capacity t.0 t.2)
  unfolding iterations
  iterations-Plays zero s schedule w h = h
  iterations-Plays (suc n) s schedule w h =
      Faultless->>= (iteration os calibration mode fuel s schedule w) _ _ _
        (iteration-Plays os tracks config capacity calibration mode playable counting clean is_os
          fuel enough s schedule w h)
        (λ t p. iterations-Plays n t.0 t.1 t.2 p)

  close_all-Plays :
      (rounds : ℕ) (s : Client) (w : os.World)
      → Plays os config capacity s w
      → Returns (close_all os rounds s w) (λ t. Plays os config capacity t.0 t.1)
  unfolding close_all
  close_all-Plays zero s w h =
      Returns-if (ltb 0 (Queue.size s.socket_list)) (err out_of_fuel) (ok (s, w)) _ tt h
  close_all-Plays (suc rounds) s w h =
      Returns-if (ltb 0 (Queue.size s.socket_list)) _ (ok (s, w)) _
        (Returns->>= (close_oldest os (s, w)) _ _ _
          (returned (close_oldest os (s, w)) _ (close_oldest-Plays os tracks config capacity s w h))
          (λ t p. close_all-Plays rounds t.0 t.1 p))
        h

  -- The loop, and the closing of all sockets.
  pub run-Plays :
      (n : ℕ) (s : Client) (w : os.World)
      → Plays os config capacity s w
      → Faultless
          (run os calibration mode n fuel s w)
          (λ t. HasSockets config.message_size t.0 [] × Plays os config capacity t.0 t.1)
  unfolding run size
  run-Plays n s w h =
      let schedule = first_schedule os calibration mode s.runner.config in
      Faultless->>= (iterations os calibration mode n fuel s schedule w) _ _ _
        (iterations-Plays n s schedule w h) (λ t p. closed t.0 t.2 p)
    where
      none_left :
          (s' : Client) (w' : os.World)
          → Plays os config capacity s' w'
          → Faultless
              (close_all os (Queue.size s'.socket_list) s' w')
              (λ t. HasSockets config.message_size t.0 [])
      none_left s' w' p =
          let k : HasSockets config.message_size s' p.fds = record {
            inv = p.inv;
            sockets = p.sockets;
            are_open = p.connected.open_ones;
          } in
          let (_, _, e, gone) =
            close_all_lem config.message_size os (Queue.size s'.socket_list) s' w' p.fds k
              (omega (arith, p.sockets.sized)) in
          rw e gone

      closed :
          (s' : Client) (w' : os.World)
          → Plays os config capacity s' w'
          → Faultless
              (close_all os (Queue.size s'.socket_list) s' w')
              (λ t. HasSockets config.message_size t.0 [] × Plays os config capacity t.0 t.1)
      closed s' w' p =
          Faultless-Returns (close_all os (Queue.size s'.socket_list) s' w') _ _ (none_left s' w' p)
            (close_all-Plays (Queue.size s'.socket_list) s' w' p)

module _ (os : Os) (tracks : TracksFds os) (config : Config) (sends : IsSending config) where
  pub play-Faultless :
      (is_os : IsOs os) (fuel : ℕ)
      → ((w : os.World) (fd : ℕ) → os.pending w fd < fuel)
      → ConnectsCleanly os
      → (calibration : Calibration) (mode : Mode) → IsCounting calibration mode
      → (n : ℕ) (w : os.World) → IsQuiet os w
      → Faultless
          (start_client os calibration mode config w >>= λ t.
            run os calibration mode n fuel t.0 t.2)
          (λ t. HasSockets config.message_size t.0 [] × IsReported config t.0.runner)
  play-Faultless is_os fuel enough clean calibration mode counting n w quiet =
      Faultless->>= (start_client os calibration mode config w) _ _ _
        (start_client-Plays os tracks config sends calibration mode w quiet)
        (λ t p.
          Faultless-mono (run os calibration mode n fuel t.0 t.2) _ _
            (run-Plays os tracks (opened_config config) (sockets_fit os tracks config sends)
              calibration mode (sending-IsPlayable os tracks config sends) counting clean is_os fuel
              enough n t.0 t.2 p)
            (λ u q. (
              q.0,
              IsMapped-IsReported (opened_config config) u.0.runner q.1.connected.same_config
                  q.1.connected.mapped q.1.timed,
            )))
