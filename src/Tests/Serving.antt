-- ===== src/Tests/Serving.antt =====
-- The server at a small system.
use latency_under_load.Prelude.{◌+◌, ◌≤◌, ◌≡◌, ◌⊎◌, refl, some, arith, length, add32, Safely}
use latency_under_load.Prelude.Memory.{read_bytes}
use latency_under_load.CBuffer.{new_buffer, get_buffer_head}
use latency_under_load.Connection.{Connection, new_connection}
use latency_under_load.Runner.{new_runner}
use latency_under_load.Runner.Inv.{Inv, Handled}
use latency_under_load.Server.{
  handle_socket_read, handle_connection_read, handle_socket_write, answer, sizeof_msg_id,
}
use latency_under_load.Server.Read.{handle_socket_read-Safely}
use latency_under_load.Server.Answer.{Echoes, answer-Echoes, handle_connection_read-Safely}
use latency_under_load.Server.Write.{handle_socket_write-Safely}
use latency_under_load.Server.Loop.{handle_answers}
use latency_under_load.Server.Run.{handle_answers-Safely}
use latency_under_load.Tests.Sample.{
  sample_os, start_world, sample-IsOs, pending_few, sample_config, serving, serving-Inv,
}

handle_socket_read-Safely_example :
    Safely
      (handle_socket_read sample_os 2 serving start_world)
      (λ t. Handled 8 (λ x. x.readable_socket_list) serving t.0)
handle_socket_read-Safely_example =
    handle_socket_read-Safely 8 sample_os sample-IsOs 2 serving start_world serving-Inv
      (omega arith) (pending_few start_world)

handle_connection_read-Safely_example : Safely (handle_connection_read serving) (λ r'.
    Inv 8 r'
    × (length r'.heap ≡ length serving.heap)
    × (r'.readable_connection_list.queue_size + 1 ≡ 1)
    × (1 ≤ r'.writable_socket_list.queue_size)
    × (r'.writable_socket_list.queue_size ≤ 2))
handle_connection_read-Safely_example =
    handle_connection_read-Safely 8 serving serving-Inv (omega arith)

abbrev first : Connection
first = new_connection sample_config 5 0

answer-Echoes_example : Safely (answer (some 0) 0 first serving) (λ r'.
    Echoes 8 r' 0
      (read_bytes (new_buffer 8).buffer (get_buffer_head (new_buffer 8)) sizeof_msg_id)
      (new_buffer 8).last_msg_offset)
unfolding new_runner new_connection
answer-Echoes_example =
    answer-Echoes 8 0 first serving serving-Inv refl refl (new_buffer 8) (new_buffer 8) refl refl

handle_socket_write-Safely_example :
    Safely (handle_socket_write sample_os serving start_world) (λ t.
      Inv 8 t.0
      × (length t.0.heap ≡ length serving.heap)
      × (((t.0.writable_socket_list.queue_size ≡ 1) × (t.0.msg_count ≡ serving.msg_count))
          ⊎ ((t.0.writable_socket_list.queue_size + 1 ≡ 1)
              × ((t.0.msg_count ≡ serving.msg_count)
                  ⊎ (t.0.msg_count ≡ add32 serving.msg_count 1)))))
handle_socket_write-Safely_example =
    handle_socket_write-Safely 8 sample_os sample-IsOs serving start_world serving-Inv (omega arith)

handle_answers-Safely_example : Safely (handle_answers serving) (λ r'.
    Inv 8 r'
    × (length r'.heap ≡ length serving.heap)
    × (r'.readable_connection_list.queue_size ≡ 0))
handle_answers-Safely_example = handle_answers-Safely 8 serving serving-Inv
