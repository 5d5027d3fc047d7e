-- ===== src/Tests/Echoing.antt =====
-- A message of 8 bytes from a small client to a small server and back, in pieces of 4 bytes at most.
use latency_under_load.Prelude.{
  ℕ, ◌≡◌, refl, sym, subst, inl, List, [], ◌∷◌, none, some, arith, Result, ok, err,
}
use latency_under_load.Prelude.Int.{pos}
use latency_under_load.Prelude.Doubles.{rounded_ratio, nearest, ulp}
use latency_under_load.Queue.{Queue, new_queue}
use latency_under_load.Queue
use latency_under_load.Queue.Refine.{Represents, new_queue-Represents}
use latency_under_load.Prelude.Memory.{write_bytes, read_bytes}
use latency_under_load.CBuffer.{
  new_buffer, reserve_memory, get_last_msg_offset, increase_last_msg_offset, get_buffer_head,
  free_memory,
}
use latency_under_load.Connection.{Connection, new_connection, add_unaknowledged_msg}
use latency_under_load.Runner.{
  Runner, new_runner, deref, connection_at, lookup, insert, receive_once, receive_at, receive_reply,
}
use latency_under_load.Runner.Add.{grown, grown-Inv}
use latency_under_load.Runner.Inv.{with_readable}
use latency_under_load.Runner.Stream.{Delivers, dry, piece}
use latency_under_load.Server
use latency_under_load.Client
use latency_under_load.Client.{Client, made_client}
use latency_under_load.Client.Loop.{new_message, next_socket, queue_message, bytes_of_uint}
use latency_under_load.Echo.{outgoing, Awaits, HasRead}
use latency_under_load.Echo.Back.{message_comes_back}
use latency_under_load.Tests.Sample.{
  one_entry, one_entry-IsHeld, one_entry-Represents, sample_config, sample-Inv, sample-IsFresh,
}
use latency_under_load.Tests.Sending.{client_config, grown_client-Inv}
use latency_under_load.Tests.Pipe.{Pipe, pipe, pipe_os, pipe-IsOs}

-- The value of a call that returns one.
abbrev value {ℓ} : {A : Type ℓ} → A → Result A → A
value a (ok b) = b
value a (err e) = a

abbrev Returned {ℓ} : {A : Type ℓ} → Result A → Type 0
Returned (ok a) = Unit
Returned (err e) = ⊥

value-Returned {ℓ} : {A : Type ℓ} (a : A) (m : Result A) → Returned m → m ≡ ok (value a m)
value-Returned a (ok b) h = refl
value-Returned a (err e) h = absurd h

abbrev one_socket : Queue ℕ
one_socket = record {
  max_queue_size = 3;
  element_list = some 5 ∷ none ∷ none ∷ [];
  first_element_index = 0;
  last_element_index = 1;
  queue_size = 1;
}

one_socket-Represents : Represents one_socket (5 ∷ [])
one_socket-Represents = record {
  sized = refl;
  fits = omega arith;
  small = omega arith;
  cells = refl;
  first_in = omega arith;
  last_in = omega arith;
  last_at = inl refl;
  held = (refl, tt);
}

abbrev pub sender : Client
sender = record (made_client client_config (pos 7)) {
  runner = grown 5 (new_runner client_config);
  socket_list = one_socket;
  tick_counter = 67_305_985;
}

abbrev sent : Client × Pipe
sent = value (sender, pipe []) (new_message pipe_os sender (pipe []))

sends : new_message pipe_os sender (pipe []) ≡ ok sent
unfolding new_message new_runner new_connection next_socket Queue.front Queue.push Queue.pop deref
    connection_at lookup insert reserve_memory new_buffer queue_message write_bytes
    add_unaknowledged_msg new_queue rounded_ratio nearest ulp
sends = value-Returned (sender, pipe []) (new_message pipe_os sender (pipe [])) tt

-- The bytes of the message, and a world that delivers them.
abbrev pub message : List ℕ
message = 1 ∷ 2 ∷ 3 ∷ 4 ∷ 0 ∷ 0 ∷ 0 ∷ 0 ∷ []

message-sent : outgoing 8 0 sent.0.runner ≡ message
unfolding new_message new_runner new_connection next_socket Queue.front Queue.push Queue.pop deref
    connection_at lookup insert reserve_memory new_buffer queue_message write_bytes
    add_unaknowledged_msg new_queue rounded_ratio nearest ulp
message-sent = refl

pub message-delivered : Delivers pipe_os 8 5 0 (pipe message) message (pipe [])
message-delivered =
    piece {bytes = 1 ∷ 2 ∷ 3 ∷ 4 ∷ []} {rest = 0 ∷ 0 ∷ 0 ∷ 0 ∷ []} refl
      (piece {bytes = 0 ∷ 0 ∷ 0 ∷ 0 ∷ []} {rest = []} refl (dry refl))

abbrev pub far : Connection
far = new_connection sample_config 5 0

abbrev pub near : Connection
near = new_connection client_config 5 0

abbrev pub receiver : Runner
receiver = record (grown 5 (new_runner sample_config)) { readable_socket_list = one_entry }

pub receiver-Awaits : Awaits 8 0 far (new_buffer 8) receiver
unfolding new_runner new_connection new_buffer
receiver-Awaits = record {
  inv =
      with_readable 8 (grown 5 (new_runner sample_config)) one_entry
        (grown-Inv 8 5 (new_runner sample_config) sample-Inv sample-IsFresh (omega arith)
          (omega arith))
        one_entry-IsHeld;
  rest = [];
  ready = one_entry-Represents;
  at = refl;
  valid = refl;
  buffer_is = refl;
  begins = refl;
  head = refl;
  none_complete = new_queue-Represents 41 (omega arith) (omega arith);
}

abbrev read : Runner × Pipe
read = value (receiver, pipe []) (Server.handle_socket_read pipe_os 9 receiver (pipe message))

reads : Server.handle_socket_read pipe_os 9 receiver (pipe message) ≡ ok read
unfolding Server.handle_socket_read Queue.front Queue.pop Queue.push deref new_runner new_connection
    Server.read_loop receive_once reserve_memory new_buffer receive_at receive_reply
    get_last_msg_offset write_bytes Server.read_next increase_last_msg_offset Server.stop_read
    new_queue
reads =
    value-Returned (receiver, pipe []) (Server.handle_socket_read pipe_os 9 receiver (pipe message))
      tt

read_all : read.1 ≡ pipe []
unfolding Server.handle_socket_read Queue.front Queue.pop Queue.push deref new_runner new_connection
    Server.read_loop receive_once reserve_memory new_buffer receive_at receive_reply
    get_last_msg_offset write_bytes Server.read_next increase_last_msg_offset Server.stop_read
    new_queue
read_all = refl

abbrev answered : Runner
answered = value receiver (Server.handle_connection_read read.0)

answers : Server.handle_connection_read read.0 ≡ ok answered
unfolding Server.handle_socket_read Queue.front Queue.pop Queue.push deref new_runner new_connection
    Server.read_loop receive_once reserve_memory new_buffer receive_at receive_reply
    get_last_msg_offset write_bytes Server.read_next increase_last_msg_offset Server.stop_read
    new_queue Server.handle_connection_read Server.answer get_buffer_head read_bytes free_memory
answers = value-Returned receiver (Server.handle_connection_read read.0) tt

answer-sent : outgoing 8 0 answered ≡ message
unfolding Server.handle_socket_read Queue.front Queue.pop Queue.push deref new_runner new_connection
    Server.read_loop receive_once reserve_memory new_buffer receive_at receive_reply
    get_last_msg_offset write_bytes Server.read_next increase_last_msg_offset Server.stop_read
    new_queue Server.handle_connection_read Server.answer get_buffer_head read_bytes free_memory
answer-sent = refl

-- The client when its socket is readable.
abbrev pub waiter : Runner
waiter = record (grown 5 (new_runner client_config)) { readable_socket_list = one_entry }

pub waiter-Awaits : Awaits 8 0 near (new_buffer 8) waiter
unfolding new_runner new_connection new_buffer
waiter-Awaits = record {
  inv =
      with_readable 8 (grown 5 (new_runner client_config)) one_entry grown_client-Inv
        one_entry-IsHeld;
  rest = [];
  ready = one_entry-Represents;
  at = refl;
  valid = refl;
  buffer_is = refl;
  begins = refl;
  head = refl;
  none_complete = new_queue-Represents 41 (omega arith) (omega arith);
}

abbrev back : Runner × Pipe
back = value (waiter, pipe []) (Client.handle_socket_read pipe_os 9 waiter (pipe message))

comes_back : Client.handle_socket_read pipe_os 9 waiter (pipe message) ≡ ok back
unfolding Client.handle_socket_read Queue.front Queue.pop Queue.push deref new_runner new_connection
    Client.read_loop receive_once reserve_memory new_buffer receive_at receive_reply
    get_last_msg_offset write_bytes Client.read_next increase_last_msg_offset Client.stop_read
    new_queue
comes_back =
    value-Returned (waiter, pipe []) (Client.handle_socket_read pipe_os 9 waiter (pipe message)) tt

back_all : back.1 ≡ pipe []
unfolding Client.handle_socket_read Queue.front Queue.pop Queue.push deref new_runner new_connection
    Client.read_loop receive_once reserve_memory new_buffer receive_at receive_reply
    get_last_msg_offset write_bytes Client.read_next increase_last_msg_offset Client.stop_read
    new_queue
back_all = refl

message_comes_back_example : HasRead 8 0 (bytes_of_uint 67_305_985) near.read_buffer back.0
unfolding new_runner new_connection new_buffer
message_comes_back_example =
    message_comes_back 8 (omega arith) pipe_os pipe_os pipe-IsOs pipe-IsOs sender sent.0 (pipe [])
      sent.1 0 5 [] near (new_buffer 8) grown_client-Inv one_socket-Represents refl refl refl refl
      refl sends receiver read.0 answered (pipe message) read.1 0 9 far (new_buffer 8)
      (new_buffer 8) receiver-Awaits refl refl there (λ x. omega arith) reads answers waiter back.0
      (pipe message) back.1 9 near (new_buffer 8) waiter-Awaits here (omega arith) comes_back
  where
    there : Delivers pipe_os 8 5 0 (pipe message) (outgoing 8 0 sent.0.runner) read.1
    there =
        subst (λ xs. Delivers pipe_os 8 5 0 (pipe message) xs read.1) (sym message-sent)
          (subst (Delivers pipe_os 8 5 0 (pipe message) message) (sym read_all) message-delivered)

    here : Delivers pipe_os 8 5 0 (pipe message) (outgoing 8 0 answered) back.1
    here =
        subst (λ xs. Delivers pipe_os 8 5 0 (pipe message) xs back.1) (sym answer-sent)
          (subst (Delivers pipe_os 8 5 0 (pipe message) message) (sym back_all) message-delivered)
