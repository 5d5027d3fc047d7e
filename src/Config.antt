-- ===== src/Config.antt =====
-- `config_t` of common.h. The numbers are those that the command line gives; a negative number,
-- with which the program has no meaning, is not a value here.
use Prim.Native.String.{String}
use latency_under_load.Prelude.{ℕ, Bool}

-- `extra_t`: connections to open or to close during the test.
pub data Extra : Type 0 where
  opening closing non : Extra

pub record Config : Type 0 where
  pub server : Bool
  pub server_ip : String
  pub server_port : ℕ
  pub message_size : ℕ
  pub mps : ℕ
  pub period : ℕ
  pub number_connection : ℕ
  pub warm : ℕ
  pub tcp_nodelay : Bool
  pub extra_op : Extra

abbrev pub warm_up_period : ℕ
warm_up_period = 2

abbrev pub num_extra_connection : ℕ
num_extra_connection = 40

abbrev pub snd_rcv_buffer_size : ℕ
snd_rcv_buffer_size = 4000
