-- ===== src/Server/Sensible.antt =====
-- The configurations that the server and the client can run with.
use latency_under_load.Prelude.{◌+◌, ◌*◌, ◌<◌, u32_mod, int_limit}
use latency_under_load.CBuffer.{max_queued_massage}
use latency_under_load.Config.{Config, num_extra_connection}

-- A configuration under which nothing overflows.
pub record IsSensible (config : Config) : Type 0 where
  pub some_messages : 0 < config.mps
  pub queues_fit : config.mps * (config.number_connection + num_extra_connection) < int_limit
  pub some_bytes : 0 < config.message_size
  pub buffers_fit : config.message_size * max_queued_massage < u32_mod
