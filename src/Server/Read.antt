-- ===== src/Server/Read.antt =====
-- `handle_socket_read` of the server, from a runner in its invariant.
use latency_under_load.Prelude.{
  ℕ, zero, suc, ◌≤◌, ◌<◌, ◌≡◌, refl, ◌∙◌, ap, some, arith, length, length-set, Result, Safely,
  Safely->>=, Safely-mono, Bool-cases, inl, inr,
}
use latency_under_load.Queue.{Queue}
use latency_under_load.Runner.{
  Runner, Pointer, Attempt, no_room, some_bytes, no_bytes, receive_once,
}
use latency_under_load.Runner.Inv.{IsHeld-Popped, Inv, deref_at, deref_lem, Handled, with_readable}
use latency_under_load.Runner.Receive.{IsValidAt, Round, remove_connection-Inv, receive_once-Round}
use latency_under_load.Server.{drop_connection, stop_read, read_next, read_loop, handle_socket_read}
use latency_under_load.Os.{
  Os, IsOs, Received, got, closed, failed, eagain, econnreset, ebadf, einprogress, other,
}

module _ (m : ℕ) (os : Os) where
  -- The pieces of the reading handler keep the queue of readable sockets.
  abbrev Kept : Runner → Runner → Type 0
  Kept r r' =
      Inv m r'
      × (length r'.heap ≡ length r.heap)
      × (r.readable_socket_list.queue_size ≤ r'.readable_socket_list.queue_size)

  drop_connection_lem :
      (i fd : ℕ) (r : Runner) (w : os.World)
      → Inv m r
      → IsValidAt r.heap i fd
      → Safely (drop_connection os (some i) r w) (λ t. Kept r t.0)
  unfolding drop_connection
  drop_connection_lem i fd r w v k =
      let (c, w', e, inv, _) =
        remove_connection-Inv m os k.c.fd i r w v
          (record { c = k.c; at = k.at; valid = k.valid; same_fd = refl }) in
      rw (deref_at r i k.c k.at, e) (inv, length-set r.heap i c, omega arith)

  stop_read_lem :
      (i fd : ℕ) (reply : Received) (r : Runner) (w : os.World)
      → Inv m r
      → IsValidAt r.heap i fd
      → Safely (stop_read os (some i) reply r w) (λ t. Kept r t.0)
  unfolding stop_read
  stop_read_lem i fd (got bytes) r w v k = (v, refl, omega arith)
  stop_read_lem i fd closed r w v k = drop_connection_lem i fd r w v k
  stop_read_lem i fd (failed econnreset) r w v k = drop_connection_lem i fd r w v k
  stop_read_lem i fd (failed eagain) r w v k = (v, refl, omega arith)
  stop_read_lem i fd (failed ebadf) r w v k = (v, refl, omega arith)
  stop_read_lem i fd (failed einprogress) r w v k = tt
  stop_read_lem i fd (failed other) r w v k = tt

  -- The loop ends within the bytes that are to come.
  read_loop_lem :
      (is_os : IsOs os) (fuel i fd : ℕ) (r : Runner) (w : os.World)
      → Inv m r
      → IsValidAt r.heap i fd
      → os.pending w fd < fuel
      → Safely (read_loop os fuel (some i) r w) (λ t. Kept r t.0)
  unfolding read_loop read_next
  read_loop_lem is_os zero i fd r w v k h = absurd (omega arith)
  read_loop_lem is_os (suc fuel) i fd r w v k h =
      Safely->>= (receive_once os (some i) r w) _ _ _ (receive_once-Round m os is_os i r w fd v k)
        (λ t round. next (read_loop_lem is_os fuel i fd) t.0 t.1 t.2 round)
    where
      -- Two steps that keep the queue of readable sockets.
      then_kept :
          {a : Attempt} {r' : Runner} {w' : os.World} (result : Result (Runner × os.World))
          → Round m os i fd r w a r' w'
          → Safely result (λ t. Kept r' t.0)
          → Safely result (λ t. Kept r t.0)
      then_kept result round h = Safely-mono result _ _ h (λ t kept. (
        kept.0,
        kept.1 ∙ round.connections,
        omega (arith, kept.2, ap (λ (q : Queue Pointer). q.queue_size) round.readable),
      ))

      next :
          ((r' : Runner) (w' : os.World)
            → Inv m r'
            → IsValidAt r'.heap i fd
            → os.pending w' fd < fuel
            → Safely (read_loop os fuel (some i) r' w') (λ t. Kept r' t.0))
          → (a : Attempt) (r' : Runner) (w' : os.World) → Round m os i fd r w a r' w'
          → Safely (read_next os (read_loop os fuel (some i)) (some i) a r' w') (λ t. Kept r t.0)
      next again some_bytes r' w' round =
          then_kept (read_loop os fuel (some i) r' w') round
            (again r' w' round.inv round.alive (omega (arith, round.fewer refl)))
      next again (no_bytes reply) r' w' round =
          then_kept (stop_read os (some i) reply r' w') round
            (stop_read_lem i fd reply r' w' round.inv round.alive)
      next again no_room r' w' round = absurd (round.roomy refl)

  -- From a runner in its invariant whose queue of readable sockets is not empty, and with fuel for a
  -- round more than there are bytes to come at the socket: `handle_socket_read` ends. Unless it
  -- stops the program by an exit or because a queue is full, it keeps the invariant, and takes one
  -- entry at most from that queue. It makes no access outside an object, uses no buffer that has
  -- been deleted and deletes none twice.
  pub handle_socket_read-Safely :
      (is_os : IsOs os) (fuel : ℕ) (r : Runner) (w : os.World)
      → Inv m r
      → 0 < r.readable_socket_list.queue_size
      → ((fd : ℕ) → os.pending w fd < fuel)
      → Safely (handle_socket_read os fuel r w) (λ t. Handled m (λ x. x.readable_socket_list) r t.0)
  unfolding handle_socket_read
  handle_socket_read-Safely is_os fuel r w v some_entry enough =
      let h = IsHeld-Popped (length r.heap) r.readable_socket_list v.readable some_entry in
      let r' : Runner = record r { readable_socket_list = h.rest } in
      let v' = with_readable m r h.rest v h.rest_held in
      let (i, c, ep, at, ed) = deref_lem r' h.p h.points in
      rw (h.fronts, h.pops, ed)
        (elim (Bool-cases c.valid) [
          | inl live ↦
              rw (live, ep)
                (Safely-mono (read_loop os fuel (some i) r' w) _ _
                  (read_loop_lem is_os fuel i c.fd r' w v'
                    (record { c = c; at = at; valid = live; same_fd = refl }) (enough c.fd))
                  (λ t kept. record {
                    inv = kept.0;
                    connections = kept.1;
                    at_most_one = omega (arith, kept.2, h.fewer);
                  }))
          | inr dead ↦
              rw dead
                (record { inv = v'; connections = refl; at_most_one = omega (arith, h.fewer) })
        ])
