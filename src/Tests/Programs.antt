-- ===== src/Tests/Programs.antt =====
-- The whole program on the small system, as a client.
use Prim.Native.String.{String, len}
use latency_under_load.Prelude.{
  ◌<◌, ◌≡◌, refl, subst, true, List, Option, some, Result, ok, arith, get_elem?, Faultless,
}
use latency_under_load.Config.{Config}
use latency_under_load.Main.{read_config, server_ip_size}
use latency_under_load.Main.Arguments.{command_line, read_config-command_line}
use latency_under_load.Main.Program.{main, Ends, IsRunnable, main-Faultless}
use latency_under_load.Ticks.{clock}
use latency_under_load.Tests.Arguments.{strokes, count_strokes, count-strokes}
use latency_under_load.Tests.Runs.{client-IsSending, start_world-IsQuiet}
use latency_under_load.Tests.Sample.{
  sample_os, sample-IsOs, sample-TracksFds, sample-ConnectsCleanly, start_world, pending_few,
}
use latency_under_load.Tests.Sending.{client_config, fast}

abbrev words : List String
words = command_line strokes true client_config

words-read : read_config count_strokes words ≡ ok (some client_config)
words-read =
    read_config-command_line count_strokes strokes true client_config count-strokes refl
      (omega arith)

one_config : (r : Result (Option Config)) (a b : Config) → r ≡ ok (some a) → r ≡ ok (some b) → a ≡ b
one_config r a b h k = cc

words-IsRunnable :
    (config : Config) → read_config count_strokes words ≡ ok (some config) → IsRunnable config
words-IsRunnable config e =
    let same : client_config ≡ config =
      one_config (read_config count_strokes words) client_config config words-read e in
    subst IsRunnable same (client-IsSending.sensible, λ side. client-IsSending)

main-Faultless_example :
    Faultless
      (main sample_os fast clock 3 2 count_strokes words start_world)
      (Ends sample_os fast clock 3 2 start_world (read_config count_strokes words))
main-Faultless_example =
    main-Faultless sample_os sample-TracksFds sample-IsOs 2 pending_few sample-ConnectsCleanly fast
      clock tt 3 count_strokes words start_world short words-IsRunnable start_world-IsQuiet
  where
    short : (ip : String) → get_elem? words 2 ≡ some ip → len ip < server_ip_size
    short ip e = let same : "127.0.0.1" ≡ ip = cc in rw (← same) (omega arith)
