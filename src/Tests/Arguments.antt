-- ===== src/Tests/Arguments.antt =====
-- Command lines.
use Prim.Native.Char.{Char}
use Prim.Native.String.{String}
use latency_under_load.Prelude.{ℕ, zero, suc, ◌≡◌, refl, ap, some, true, arith, ok}
use latency_under_load.Main.{read_config}
use latency_under_load.Main.Arguments.{command_line, read_config-command_line}
use latency_under_load.Tests.Sample.{sample_config}
use latency_under_load.Config.{Config}

-- Numbers as strokes.
abbrev stroke : Char
stroke = "1"

abbrev pub strokes : ℕ → String
strokes zero = String.[]
strokes (suc n) = String.◌∷◌ stroke (strokes n)

abbrev pub count_strokes : String → ℕ
count_strokes String.[] = 0
count_strokes (String.◌∷◌ c s) = suc (count_strokes s)

pub count-strokes : (n : ℕ) → count_strokes (strokes n) ≡ n
count-strokes zero = refl
count-strokes (suc n) = ap suc (count-strokes n)

abbrev warming : Config
warming = record sample_config { warm = 2; server_port = 3 }

read_config-command_line_example :
    read_config count_strokes (command_line strokes true warming) ≡ ok (some warming)
read_config-command_line_example =
    read_config-command_line count_strokes strokes true warming count-strokes refl (omega arith)
