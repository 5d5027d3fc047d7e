-- ===== src/Main.antt =====
-- main.cpp: the configuration from the command line. `atoi` is a parameter; a negative number on the
-- command line is not modelled.
pub mod Arguments
pub mod Program
use Prim.Native.String.{String, len}
use text.Mathlib.Text.{◌==◌}
use latency_under_load.Prelude.{
  ℕ, Option, none, some, Bool, true, false, List, ltb, if◌then◌else◌, length, get_elem?, Result, ok,
  err, faults, ◌>>=◌,
}
use latency_under_load.Config.{Config, Extra, opening, closing, non, warm_up_period}

abbrev pub default_config : Config
default_config = record {
  server = false;
  server_ip = "0";
  server_port = 5000;
  message_size = 100;
  mps = 100;
  period = 1;
  number_connection = 1;
  warm = 0;
  tcp_nodelay = false;
  extra_op = non;
}

-- `argv[i]`.
abbrev pub arg : ℕ → List String → Result String
arg i argv = elim (get_elem? argv i) [ none ↦ err faults | some s ↦ ok s ]

-- The size of `server_ip`.
abbrev pub server_ip_size : ℕ
server_ip_size = 20

-- `strcpy` into `server_ip`: the text and a final 0 must fit.
unfoldable pub copy_server_ip : String → Result String
copy_server_ip s = if ltb (len s) server_ip_size then ok s else err faults

unfoldable pub server_of : String → Option Bool
server_of s = if s == "SERVER" then some true else if s == "CLIENT" then some false else none

unfoldable pub warm_of : String → Option ℕ
warm_of s = if s == "WARMUP" then some warm_up_period else if s == "NOWARMUP" then some 0 else none

unfoldable pub nodelay_of : String → Option Bool
nodelay_of s = if s == "DELAY" then some false else if s == "NODELAY" then some true else none

unfoldable pub extra_of : String → Option Extra
extra_of s =
    if s == "EXTRA_OPEN"
    then some opening
    else if s == "EXTRA_CLOSE"
    then some closing
    else if s == "NOEXTRA"
    then some non
    else none

-- `return -1` at a word that is not known.
abbrev pub unless_unknown {ℓ} :
    {A : Type ℓ} → Option A → (A → Result (Option Config)) → Result (Option Config)
unless_unknown none f = ok none
unless_unknown (some a) f = f a

module _ (atoi : String → ℕ) where
  -- `none` is the result -1, after which the program ends.
  unfoldable pub process_arg : List String → Config → Result (Option Config)
  process_arg argv config = do
    side ← arg 1 argv
    unless_unknown (server_of side) (λ server. do
      ip ← arg 2 argv
      server_ip ← copy_server_ip ip
      port ← arg 3 argv
      size ← arg 4 argv
      rate ← arg 5 argv
      period ← arg 6 argv
      connections ← arg 7 argv
      warm_up ← arg 8 argv
      unless_unknown (warm_of warm_up) (λ warm. do
        delay ← arg 9 argv
        unless_unknown (nodelay_of delay) (λ tcp_nodelay. do
          extra ← arg 10 argv
          unless_unknown (extra_of extra) (λ extra_op. ok (
              some (record config {
                server = server;
                server_ip = server_ip;
                server_port = atoi port;
                message_size = atoi size;
                mps = atoi rate;
                period = atoi period;
                number_connection = atoi connections;
                warm = warm;
                tcp_nodelay = tcp_nodelay;
                extra_op = extra_op;
              }))))))

  -- The test of the arguments in `main`: `none` is the message on the usage.
  unfoldable pub read_config : List String → Result (Option Config)
  read_config argv = if ltb (length argv) 11 then ok none else process_arg argv default_config
