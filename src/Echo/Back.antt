-- ===== src/Echo/Back.antt =====
-- The steps of a message to the server and back, one after the other.
use latency_under_load.Prelude.{
  ℕ, ◌≤◌, ◌<◌, ◌≡◌, sym, ap, subst, ◌∙◌, some, Bool, true, List, [], ◌∷◌, arith, get_elem?, ok,
  Returns, Returns-mono, returned, Safely-Returns, Safely-Faultless, if◌then◌else◌,
}
use latency_under_load.Prelude.Memory.{read_bytes}
use latency_under_load.Queue.Refine.{Represents, front-Represents, pop-Represents}
use latency_under_load.CBuffer.{Buffer}
use latency_under_load.Connection.{Connection}
use latency_under_load.Runner.{Runner}
use latency_under_load.Runner.Inv.{Inv, Inv-HasBuffers, deref_at, with_complete}
use latency_under_load.Runner.Stream.{Delivers}
use latency_under_load.Server
use latency_under_load.Server.{sizeof_msg_id, answer}
use latency_under_load.Server.Answer.{answer-Echoes, answer-Queued}
use latency_under_load.Server.Read.{handle_socket_read-Safely}
use latency_under_load.Server.Reassembly.{handle_socket_read-eq}
use latency_under_load.Client
use latency_under_load.Client.{Client}
use latency_under_load.Client.Loop.{bytes_of_uint, new_message}
use latency_under_load.Client.Reassembly.{handle_socket_read-eq_client}
use latency_under_load.Echo.{outgoing, Awaits, HasRead, IsMessage, read_bytes-take}
use latency_under_load.Echo.Sent.{outgoing-IsMessage, new_message-IsMessage}
use latency_under_load.Echo.Arrived.{read-HasRead}
use latency_under_load.Os.{Os, IsOs}

module _ (m : ℕ) (some_id : sizeof_msg_id ≤ m) where
  module _ (os : Os) (is_os : IsOs os) (i : ℕ) (c : Connection) (b : Buffer) (r : Runner)
      (a : Awaits m i c b r) (fuel : ℕ) (w w' : os.World) (bytes id : List ℕ)
      (message : IsMessage m id bytes) (delivers : Delivers os m c.fd b.last_msg_offset w bytes w')
      (enough : os.pending w c.fd < fuel) where
    server-HasRead :
        Returns (Server.handle_socket_read os fuel r w) (λ t. HasRead m i id c.read_buffer t.0)
    server-HasRead =
        let (queue, pops, _, _) = pop-Represents r.readable_socket_list (some i) a.rest a.ready in
        rw
          (handle_socket_read-eq os is_os m i fuel c b r w w' bytes queue a.inv
            (front-Represents r.readable_socket_list (some i) a.rest a.ready) pops a.at a.valid
            a.buffer_is delivers enough)
          (read-HasRead m some_id i c b r a queue bytes id w' message)

    client-HasRead :
        Returns (Client.handle_socket_read os fuel r w) (λ t. HasRead m i id c.read_buffer t.0)
    client-HasRead =
        let (queue, pops, _, _) = pop-Represents r.readable_socket_list (some i) a.rest a.ready in
        rw
          (handle_socket_read-eq_client os is_os m i fuel c b r w w' bytes queue a.inv
            (front-Represents r.readable_socket_list (some i) a.rest a.ready) pops a.at a.valid
            a.buffer_is delivers enough)
          (read-HasRead m some_id i c b r a queue bytes id w' message)

  -- The server's answer has the number of the message that it has read.
  answer-IsMessage :
      (j : ℕ) (id : List ℕ) (target : Buffer) (r : Runner)
      → Inv m r
      → HasRead m j id (some target) r
      → target.last_msg_offset ≡ 0
      → Returns (Server.handle_connection_read r) (λ r'. IsMessage m id (outgoing m j r'))
  unfolding Server.handle_connection_read
  answer-IsMessage j id target r v h begins =
      let (queue, pops, none_left, _) =
        pop-Represents r.readable_connection_list (some j) [] h.complete in
      let r' : Runner = record r { readable_connection_list = queue } in
      let v' =
        with_complete m r queue v (record { held = []; represents = none_left; inside = tt }) in
      let k = h.holds in
      let answers = answer (some j) j k.c r' in
      let both = returned answers _ (
        Safely-Faultless answers _ (
          Safely-Returns answers _ _ (answer-Queued m j k.c r' v' k.at k.valid) (
            returned answers _ (
              Safely-Faultless answers _
                (answer-Echoes m j k.c r' v' k.at k.valid k.b target k.buffer_is k.target_is))))) in
      rw
        (
          front-Represents r.readable_connection_list (some j) [] h.complete,
          pops,
          deref_at r' j k.c k.at,
        )
        (subst
          (λ (live : Bool).
            Returns (if live then answers else ok r') (λ r''. IsMessage m id (outgoing m j r'')))
          (sym k.valid)
          (Returns-mono answers _ _ both (λ r'' (queued, e).
            let h' = Inv-HasBuffers m r'' j e.c queued.inv e.stands e.still_valid in
            let same : h'.read ≡ e.b = ground (arith, e.buffer_is, h'.read_is) in
            let echo : read_bytes e.b.buffer 0 sizeof_msg_id ≡ ok id =
              ap (λ at. read_bytes e.b.buffer at sizeof_msg_id) (sym begins) ∙ e.echo ∙ k.number in
            outgoing-IsMessage m some_id j e.c e.b r'' id e.stands e.buffer_is
              (rw (← same) h'.read_slot) (rw (← same) h'.read_size)
              (read_bytes-take e.b.buffer sizeof_msg_id id echo))))

  module _ (client_os server_os : Os) (is_client_os : IsOs client_os)
      (is_server_os : IsOs server_os) where
    -- For messages of 4 bytes or more: the client's next socket, whose connection is valid and has no
    -- message partly written, gets a message. The server is about to read from a connection to which
    -- a network delivers this message, in any pieces, and whose other buffer has no message partly
    -- written; it reads and answers. The client is about to read from its connection, to which the
    -- network delivers the answer, in any pieces. When all these calls return, the message that the
    -- client has received has the number that it has given to the one that it has sent.
    pub message_comes_back :
        (s s' : Client) (w w' : client_os.World) (i fd : ℕ) (fds : List ℕ) (c : Connection)
        (b : Buffer)
        → Inv m s.runner
        → Represents s.socket_list (fd ∷ fds)
        → get_elem? s.runner.heap i ≡ some c
        → c.valid ≡ true
        → c.fd ≡ fd
        → c.read_buffer ≡ some b
        → b.last_msg_offset ≡ 0
        → new_message client_os s w ≡ ok (s', w')
        → (r r₁ r₂ : Runner) (v v' : server_os.World) (j fuel : ℕ) (far : Connection)
          (source target : Buffer) (a : Awaits m j far source r)
        → far.read_buffer ≡ some target
        → target.last_msg_offset ≡ 0
        → Delivers server_os m far.fd source.last_msg_offset v (outgoing m i s'.runner) v'
        → ((x : ℕ) → server_os.pending v x < fuel)
        → Server.handle_socket_read server_os fuel r v ≡ ok (r₁, v')
        → Server.handle_connection_read r₁ ≡ ok r₂
        → (q q' : Runner) (u u' : client_os.World) (fuel' : ℕ) (near : Connection) (reply : Buffer)
          (z : Awaits m i near reply q)
        → Delivers client_os m near.fd reply.last_msg_offset u (outgoing m j r₂) u'
        → client_os.pending u near.fd < fuel'
        → Client.handle_socket_read client_os fuel' q u ≡ ok (q', u')
        → HasRead m i (bytes_of_uint s.tick_counter) near.read_buffer q'
    message_comes_back s s' w w' i fd fds c b inv sockets at valid same_fd buffer_is begins sends r
          r₁ r₂ v v' j fuel far source target a target_is target_begins there enough reads answers q
          q' u u' fuel' near reply z back enough' reads' =
        let id = bytes_of_uint s.tick_counter in
        let sent : IsMessage m id (outgoing m i s'.runner) = rw sends at (
          new_message-IsMessage m some_id client_os s w fd fds i c b inv sockets at valid same_fd
            buffer_is begins) in
        let arrived : HasRead m j id (some target) r₁ =
          rw (reads, target_is) at
            (server-HasRead server_os is_server_os j far source r a fuel v v'
              (outgoing m i s'.runner) id sent there (enough far.fd)) in
        let kept : Inv m r₁ =
          (rw reads at (
            handle_socket_read-Safely m server_os is_server_os fuel r v a.inv
              (omega (arith, a.ready.sized)) enough)).inv in
        let answered : IsMessage m id (outgoing m j r₂) =
          rw answers at (answer-IsMessage j id target r₁ kept arrived target_begins) in
        rw reads' at (
          client-HasRead client_os is_client_os i near reply q z fuel' u u' (outgoing m j r₂) id
            answered back enough')
