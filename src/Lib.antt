-- ===== src/Lib.antt =====
-- The latency-under-load test: a server and a client that send messages of one size over many TCP
-- connections, without blocking, and measure the round trip times. This library models the code in
-- the repository's root and proves what holds of it. In the order in which they rest on one another:
--
-- - Prelude and its children: the library's names, Boolean tests, lists, machine words, bytes of
--   memory, integers, and `Result`, in which a throw, an exit, a fault and missing fuel are values.
--   A fault is any access that C++ does not define: outside an array, of memory that was never
--   written, through a null pointer, of a deleted object. `Safely a P` says that `a` faults nowhere,
--   takes nothing from an empty queue, has enough fuel, and satisfies `P` unless it exits or finds a
--   queue full; `Faultless a P` allows an empty queue too.
-- - Queue (squeue.h, `queue_t`): the circular array. Queue/Fifo is the bounded list that it stands
--   for, Queue/Refine the refinement.
-- - CBuffer (cbuffer.h, cbuffer.cpp, `connection_buffer_t`): the circular buffer of messages.
--   CBuffer/OneSlot is about the states it comes to from its construction, CBuffer/Ring about its
--   offsets at whole slots.
-- - Clock (clock.h, ticks_os.h) and Ticks (Ticks.h, Ticks.cpp): times and their conversions,
--   with the classes in Ticks/Duration, the assignments in Ticks/Assign, what is computed with a
--   `double` in Ticks/Floating, and the readings of the counter and of the clock in Ticks/Reading.
--   Clock/Normal, Ticks/Conversion, Ticks/Split, Ticks/Rate, Ticks/Rules, Ticks/Sorted and
--   Ticks/Deviation hold the theorems. `qsort` is a parameter, and `IsQsort` what it is documented to
--   do; so is `Double` for `stdDev` and `setFromSeconds`, and `IsExact` what IEEE 754 says of results
--   that are values of the type. The conversions between ticks and nanoseconds wrap round at 64 bits,
--   and those of ticks fault where `TICKS_PER_MSEC` is 0, which `IsCounting` excludes. The sums and
--   differences of times and the operators of the classes are on unbounded integers, of which an
--   `int` is one, as Ticks.h leaves their overflow to its users.
-- - Os: the calls of the operating system, all of them parameters: a world, and functions on it. The
--   record `IsOs` holds what is relied on: `recv` and `send` report no more bytes than they were
--   given room for, `recv` reports a byte at least, and the bytes that it hands over were pending.
--   `TracksFds` holds what the calls do to the file descriptors: one that is handed out was not open,
--   one is polled from `epoll_ctl` on until it is taken off or closed, and an event is of one that is
--   polled, with `EPOLLOUT` only if it is polled for that. `ConnectsCleanly` is no promise of the
--   system: it says that no socket that waits for its connection reports an error or a hang-up alone,
--   and Client/Errors what happens if one does.
-- - Config (`config_t` of common.h) and Connection (connection.h, connection.cpp, `connection_t`).
-- - Runner (common.h, common.cpp, `runner_t`): the state that both sides share. Connections stand on a
--   heap, and the queues and the map hold places on it, so that a queue that still names a removed
--   connection is modelled. Runner/Inv is the invariant, Runner/Receive a round of the read loop,
--   Runner/Send the message that is being sent, and Runner/Add the addition of a connection.
--   Runner/Linked, Runner/Polled, Runner/Quiet and Runner/Options are about the file descriptors that
--   are polled, Runner/Kept about what a round of the read loop leaves alone, Runner/Mapped about the
--   entries of the map, and Connection/Times about the queues of round trip times.
--   Runner/Stream and Runner/Wire are about the bytes that a connection receives and sends, in whatever
--   pieces: `Delivers` is what `recv` hands over, and `IsWire` that `send` takes bytes in their order.
--   Runner/Stream/Rounds is a round of the read loop with a piece.
-- - Server (server.cpp, `server_t`): its handlers; Server/Loop is `run`, Server/Start the constructor
--   and the destructor. Server/Read, Server/Answer and Server/Write are about what the handlers do,
--   and Server/Run about the loops over the queues. Server/Sensible has the configurations under
--   which nothing overflows. Server/Linked, Server/Events and Server/Opened are about the file
--   descriptors that it polls, and Server/Whole about its constructor and its loop together.
--   Server/Reassembly and Server/Transmit are about the pieces of messages.
-- - Client (client.cpp, `client_t`): its state and handlers; Client/Loop is `run`, Client/Report is
--   `print_result`. Client/Read, Client/Write and Client/Times are about what the handlers do,
--   Client/Turns about the turns of the sockets, Client/Saved and Client/Reported about what is
--   reported of a connection and of the map, Client/Run, Client/Replies, Client/Kept, Client/Loops
--   and Client/Close about its loops. Client/Start is the constructor and the destructor. Client/Plays
--   is the invariant of `run`, with Client/Sockets about the connections of its sockets.
--   Client/Message (a message that is sent), Client/Change (the extra connections), Client/Connect
--   (a socket that has been connected), Client/Events (what `epoll_wait` reports), Client/Iteration (a
--   turn of the loop) and Client/Opened (the constructor) are about the steps, and Client/Whole about
--   the constructor and `run` together. Client/Reassembly and Client/Transmit are about the pieces
--   of messages.
-- - Main (main.cpp): the configuration from the command line, with `atoi` a parameter. Main/Arguments
--   is about the command lines, and Main/Program is `main`, which runs the server or the client to the
--   result that it prints.
-- - Echo: both programs together, with a message on its way from the client to the server and back.
--   Echo/Sent is about a message as it is sent, Echo/Arrived about one that has been read, and Echo/Back
--   about the whole way.
-- - Tests: the definitions and the theorems at concrete inputs.
--
-- Fuel: the read loop of `handle_socket_read` takes a round per call of `recv`. Each round but the
-- last receives at least a byte, so a round more than there are bytes to come is enough. `run` is
-- given the number of its iterations, since a signal ends it. `print_result` and the closing of the
-- sockets at the end of `run` take a round per entry of a queue, so as much fuel as the queue has
-- entries is enough; after `run`, `print_result` is given as much as an `int` counts, which is more
-- than the entries of any queue.
--
-- Numbers: unsigned arithmetic of 32 bits wraps round (Prelude/Words). The `double`s of the queue
-- sizes, the round trip times and their sum are rounded as IEEE 754 rounds them (Prelude/Doubles). The
-- `int`s of the queues are natural numbers below 2 ^ 31, which `Represents` states. Negative numbers
-- on the command line are not modelled.
--
-- Not modelled: what is printed, the sockets' addresses, the release of memory at the end,
-- the rates in floating point that `print_result` prints, the message of an exception, and the
-- branches for Windows and for other processors.
pub mod Prelude
pub mod Queue
pub mod CBuffer
pub mod Clock
pub mod Ticks
pub mod Os
pub mod Config
pub mod Connection
pub mod Runner
pub mod Server
pub mod Client
pub mod Echo
pub mod Main
pub mod Tests
