-- ===== src/Tests/Streams.antt =====
-- The pieces of a message that are received and sent, at a small system.
use latency_under_load.Prelude.{
  ◌≡◌, ◌⊎◌, refl, ℕ, false, some, List, [], arith, get_elem?, ok, ◌>>=◌, Returns, add32,
}
use latency_under_load.Queue.{Queue}
use latency_under_load.Queue
use latency_under_load.Queue.Refine.{front-Represents}
use latency_under_load.CBuffer.{new_buffer}
use latency_under_load.Connection.{Connection, new_connection}
use latency_under_load.Runner.{Runner, Pointer, new_runner}
use latency_under_load.Runner.Stream.{put_bytes, push_times, stream_of, streamed}
use latency_under_load.Runner.Wire.{Transmits, message_of}
use latency_under_load.Server
use latency_under_load.Server.Reassembly.{handle_socket_read-eq}
use latency_under_load.Server.Transmit.{send_message-Progress}
use latency_under_load.Client
use latency_under_load.Client.{Client}
use latency_under_load.Client.Reassembly.{handle_socket_read-eq_client}
use latency_under_load.Client.Transmit.{send_message-Progress_client}
use latency_under_load.Tests.Sample.{one_entry, one_entry-Represents}
use latency_under_load.Tests.Sending.{grown_client-Inv}
use latency_under_load.Tests.Pipe.{Pipe, pipe, pipe_os, pipe-IsOs, pipe-IsWire}
use latency_under_load.Tests.Echoing.{
  message, far, near, receiver, waiter, sender, message-delivered, receiver-Awaits, waiter-Awaits,
}

abbrev popped : Queue Pointer
popped = record one_entry { first_element_index = 1; queue_size = 0 }

pops : Queue.pop one_entry ≡ ok popped
unfolding Queue.pop
pops = refl

handle_socket_read-eq_example : Server.handle_socket_read pipe_os 9 receiver (pipe message) ≡ (
    push_times
      (put_bytes 8 message (stream_of (new_buffer 8))).complete
      (some 0)
      receiver.readable_connection_list
    >>= λ q. ok (
      streamed 0 far
          (new_buffer 8)
          (record receiver { readable_socket_list = popped })
          (put_bytes 8 message (stream_of (new_buffer 8)))
          q,
      pipe [],
    ))
unfolding new_runner new_connection new_buffer
handle_socket_read-eq_example =
    handle_socket_read-eq pipe_os pipe-IsOs 8 0 9 far (new_buffer 8) receiver (pipe message)
      (pipe []) message popped receiver-Awaits.inv
      (front-Represents one_entry (some 0) [] one_entry-Represents) pops refl refl refl
      message-delivered (omega arith)

handle_socket_read-eq_client_example : Client.handle_socket_read pipe_os 9 waiter (pipe message) ≡ (
    push_times
      (put_bytes 8 message (stream_of (new_buffer 8))).complete
      (some 0)
      waiter.readable_connection_list
    >>= λ q. ok (
      streamed 0 near
          (new_buffer 8)
          (record waiter { readable_socket_list = popped })
          (put_bytes 8 message (stream_of (new_buffer 8)))
          q,
      pipe [],
    ))
unfolding new_runner new_connection new_buffer
handle_socket_read-eq_client_example =
    handle_socket_read-eq_client pipe_os pipe-IsOs 8 0 9 near (new_buffer 8) waiter (pipe message)
      (pipe []) message popped waiter-Awaits.inv
      (front-Represents one_entry (some 0) [] one_entry-Represents) pops refl refl refl
      message-delivered (omega arith)

abbrev zeros : List ℕ
zeros = message_of 8 (new_buffer 8)

abbrev Sends : List ℕ → Runner → Pipe → Type 0
Sends base r w = Transmits pipe_os (λ w fd. w.taken) 8 0 5 base zeros r w

unfoldable receiver_sends : Sends [] receiver (pipe [])
unfolding new_runner new_connection new_buffer
receiver_sends = record {
  c = far;
  b = new_buffer 8;
  at = refl;
  valid = refl;
  same_fd = refl;
  buffer_is = refl;
  message_is = refl;
  on_wire = refl;
}

unfoldable sender_sends : Sends [] sender.runner (pipe [])
unfolding new_runner new_connection new_buffer
sender_sends = record {
  c = near;
  b = new_buffer 8;
  at = refl;
  valid = refl;
  same_fd = refl;
  buffer_is = refl;
  message_is = refl;
  on_wire = refl;
}

send_message-Progress_example :
    Returns (Server.send_message pipe_os (some 0) 0 far receiver (pipe [])) (λ t.
      (Sends [] t.0 t.1 × (t.0.msg_count ≡ receiver.msg_count))
      ⊎ ((Sends zeros t.0 t.1 × (t.0.msg_count ≡ add32 receiver.msg_count 1))
          ⊎ ((c : Connection) × (get_elem? t.0.heap 0 ≡ some c) × (c.valid ≡ false))))
unfolding receiver_sends
send_message-Progress_example =
    send_message-Progress pipe_os pipe-IsOs (λ w fd. w.taken) pipe-IsWire 8 0 5 [] zeros receiver
      (pipe []) receiver-Awaits.inv receiver_sends

send_message-Progress_client_example :
    Returns (Client.send_message pipe_os (some 0) 0 near sender (pipe [])) (λ t.
      (Sends [] t.0.runner t.1 × (t.0.sent_message ≡ sender.sent_message))
      ⊎ (Sends zeros t.0.runner t.1 × (t.0.sent_message ≡ add32 sender.sent_message 1)))
unfolding sender_sends
send_message-Progress_client_example =
    send_message-Progress_client pipe_os pipe-IsOs (λ w fd. w.taken) pipe-IsWire 8 0 5 [] zeros
      sender (pipe []) grown_client-Inv sender_sends
