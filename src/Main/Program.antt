-- ===== src/Main/Program.antt =====
-- `main`: the arguments, the server or the client that they ask for, its run and its result.
use Prim.Native.String.{String, len}
use latency_under_load.Prelude.{
  ℕ, ◌*◌, ◌<◌, ◌≡◌, ◌∙◌, ap, refl, Option, none, some, true, false, List, get_elem?, int_limit,
  Result, ok, ◌>>=◌, Faultless, Faultless-test, Faultless-chain, Faultless-known, Safely-Faultless,
  Succeeds-value, if◌then◌else◌,
}
use latency_under_load.Config.{Config}
use latency_under_load.Ticks.{IsCounting, Calibration, Mode}
use latency_under_load.Os.{Os, IsOs, TracksFds, ConnectsCleanly}
use latency_under_load.Runner.{Runner}
use latency_under_load.Runner.Quiet.{IsQuiet}
use latency_under_load.Server
use latency_under_load.Server.Start.{new_server}
use latency_under_load.Server.Sensible.{IsSensible}
use latency_under_load.Server.Whole.{serve-Safely}
use latency_under_load.Client
use latency_under_load.Client.{Client}
use latency_under_load.Client.Start.{start_client}
use latency_under_load.Client.Report.{Report, print_result}
use latency_under_load.Client.Reported.{Times, HaveRtts, add_all, empty_report}
use latency_under_load.Client.Opened.{IsSending}
use latency_under_load.Client.Whole.{play-Faultless}
use latency_under_load.Main.{server_ip_size, read_config}
use latency_under_load.Main.Arguments.{read_config-Succeeds}

-- What the program has printed at its end: the message on the usage, the server's count of messages,
-- or the client's report.
pub data Ending : Type 0 where
  usage : Ending
  served : ℕ → Ending
  reported : Report → Ending

module _ (os : Os) (calibration : Calibration) (mode : Mode) (n fuel : ℕ) where
  -- `run` and `print_result` of a new server.
  unfoldable pub serve : Config → os.World → Result Ending
  serve config w = do
    s ← new_server os config w
    (r, _) ← Server.Loop.run os n fuel s.lfd s.runner s.world
    ok (served r.msg_count)

  -- `run` and `print_result` of a new client.
  unfoldable pub play : Config → os.World → Result Ending
  play config w = do
    (s, _, w₁) ← start_client os calibration mode config w
    (s', _) ← Client.Loop.run os calibration mode n fuel s w₁
    (_, report) ← print_result int_limit s'.runner
    ok (reported report)

  -- The side that the configuration names.
  unfoldable pub run_side : Config → os.World → Result Ending
  run_side config w = if config.server then serve config w else play config w

  -- `main`, with `atoi` a parameter.
  unfoldable pub main : (String → ℕ) → List String → os.World → Result Ending
  main atoi argv w = do
    read ← read_config atoi argv
    elim read [ none ↦ ok usage | some config ↦ run_side config w ]

-- A configuration under which the side that it names can run.
abbrev pub IsRunnable : Config → Type 0
IsRunnable config = IsSensible config × (config.server ≡ false → IsSending config)

module _ (os : Os) (calibration : Calibration) (mode : Mode) (n fuel : ℕ) (w : os.World) where
  -- The run of a new server, and that of a new client.
  abbrev server_run : Config → Result (Runner × os.World)
  server_run config =
      new_server os config w >>= λ s. Server.Loop.run os n fuel s.lfd s.runner s.world

  abbrev client_run : Config → Result (Client × os.World)
  client_run config = start_client os calibration mode config w >>= λ t.
      Client.Loop.run os calibration mode n fuel t.0 t.2

  -- What an ending tells of the arguments that were read. The count is that of the server that has
  -- run, and the report is of the times of all entries of the map of the client that has run.
  abbrev pub Ends : Result (Option Config) → Ending → Type 0
  Ends read usage = read ≡ ok none
  Ends read (served count) =
      (config : Config) × (r : Runner) × (w' : os.World) × (read ≡ ok (some config))
      × (config.server ≡ true)
      × (server_run config ≡ ok (r, w'))
      × (count ≡ r.msg_count)
  Ends read (reported report) =
      (config : Config) × (s : Client) × (w' : os.World) × (ts : List Times) × (read
        ≡ ok (some config))
      × (config.server ≡ false)
      × (client_run config ≡ ok (s, w'))
      × HaveRtts s.runner.heap s.runner.connection_list ts
      × (report ≡ add_all (config.warm * config.mps) ts (empty_report s.runner.msg_count))

module _ (os : Os) (tracks : TracksFds os) (is_os : IsOs os) (fuel : ℕ)
    (enough : (w : os.World) (fd : ℕ) → os.pending w fd < fuel) (clean : ConnectsCleanly os)
    (calibration : Calibration) (mode : Mode) (counting : IsCounting calibration mode) (n : ℕ) where
  serve-Faultless :
      (config : Config) (w : os.World)
      → IsSensible config
      → config.server ≡ true
      → IsQuiet os w
      → Faultless
          (serve os calibration mode n fuel config w)
          (Ends os calibration mode n fuel w (ok (some config)))
  unfolding serve
  serve-Faultless config w sensible side quiet =
      let whole = server_run os calibration mode n fuel w config in
      Faultless-chain (new_server os config w)
        (λ s. Server.Loop.run os n fuel s.lfd s.runner s.world) (λ t. ok (served t.0.msg_count)) _ _
        (Faultless-known whole _ (
          Safely-Faultless whole _
            (serve-Safely os tracks is_os fuel config enough sensible n w quiet)))
        (λ t (e, _). (config, t.0, t.1, refl, side, e, refl))

  play-Ends :
      (config : Config) (w : os.World)
      → IsSending config
      → IsQuiet os w
      → Faultless
          (play os calibration mode n fuel config w)
          (Ends os calibration mode n fuel w (ok (some config)))
  unfolding play
  play-Ends config w sends quiet =
      Faultless-chain (start_client os calibration mode config w)
        (λ t. Client.Loop.run os calibration mode n fuel t.0 t.2)
        (λ t. print_result int_limit t.0.runner >>= λ u. ok (reported u.1)) _ _
        (Faultless-known (client_run os calibration mode n fuel w config) _ (
          play-Faultless os tracks config sends is_os fuel enough clean calibration mode counting n
            w quiet))
        (λ t (known, (_, (ts, r, have, e))).
          rw e (config, t.0, t.1, ts, refl, sends.of_client, known, have, refl))

  run_side-Faultless :
      (config : Config) (w : os.World)
      → IsRunnable config
      → IsQuiet os w
      → Faultless
          (run_side os calibration mode n fuel config w)
          (Ends os calibration mode n fuel w (ok (some config)))
  unfolding run_side
  run_side-Faultless config w (sensible, sends) quiet =
      Faultless-test config.server _ _ _ (λ server. serve-Faultless config w sensible server quiet)
        (λ client. play-Ends config w (sends client) quiet)

  -- In a world where nothing is polled, with a second argument of less than 20 bytes if there is
  -- one, and whatever the system answers that keeps its account of the file descriptors, where no
  -- socket that waits for its connection reports an error or a hang-up alone, and conversions divide by
  -- no 0: where any configuration that the arguments name is one that its side can run with, the program makes no
  -- access outside an object, uses no buffer that has been deleted, deletes none twice, divides by
  -- no zero, and ends, for any number of iterations. Unless an exit or a throw stops it, it comes
  -- to the usage only if the arguments name no configuration, to a count only as a server, whose
  -- count it is after its run, and to a report only as a client: that of the round trip times of all
  -- entries of its map after its run, without those that the configuration ignores. The fuel of a
  -- read loop is more than the bytes that one socket has pending.
  pub main-Faultless :
      (atoi : String → ℕ) (argv : List String) (w : os.World)
      → ((ip : String) → get_elem? argv 2 ≡ some ip → len ip < server_ip_size)
      → ((config : Config) → read_config atoi argv ≡ ok (some config) → IsRunnable config)
      → IsQuiet os w
      → Faultless
          (main os calibration mode n fuel atoi argv w)
          (Ends os calibration mode n fuel w (read_config atoi argv))
  unfolding main
  main-Faultless atoi argv w short runnable quiet =
      let (read, e, _) =
        Succeeds-value (read_config atoi argv) _ (read_config-Succeeds atoi argv short) in
      rw e (ended read (λ config found. runnable config (e ∙ ap ok found)))
    where
      ended :
          (read : Option Config)
          → ((config : Config) → read ≡ some config → IsRunnable config)
          → Faultless
              (elim read [
                | none ↦ ok usage
                | some config ↦ run_side os calibration mode n fuel config w
              ])
              (Ends os calibration mode n fuel w (ok read))
      ended none allowed = refl
      ended (some config) allowed = run_side-Faultless config w (allowed config refl) quiet
