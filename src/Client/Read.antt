-- ===== src/Client/Read.antt =====
-- `handle_socket_read` of the client, from a runner in its invariant.
use latency_under_load.Prelude.{
  ℕ, zero, suc, ◌+◌, ◌<◌, ◌≡◌, refl, ◌∙◌, ap, some, arith, length, Result, Safely, Safely->>=,
  Safely-mono, Bool-cases, inl, inr,
}
use latency_under_load.Queue.{Queue}
use latency_under_load.Runner.{
  Runner, Pointer, Attempt, no_room, some_bytes, no_bytes, receive_once,
}
use latency_under_load.Runner.Inv.{IsHeld-Popped, Inv, deref_lem, with_readable}
use latency_under_load.Runner.Receive.{IsValidAt, Round, receive_once-Round}
use latency_under_load.Client.{stop_read, read_next, read_loop, handle_socket_read}
use latency_under_load.Os.{
  Os, IsOs, Received, got, closed, failed, eagain, econnreset, ebadf, einprogress, other,
}

module _ (m : ℕ) (os : Os) where
  abbrev Kept : Runner → Runner → Type 0
  Kept r r' =
      Inv m r'
      × (length r'.heap ≡ length r.heap)
      × (r'.readable_socket_list ≡ r.readable_socket_list)

  stop_read-Kept :
      (reply : Received) (r : Runner) (w : os.World)
      → Inv m r
      → Safely (stop_read os reply r w) (λ t. Kept r t.0)
  unfolding stop_read
  stop_read-Kept (got bytes) r w v = (v, refl, refl)
  stop_read-Kept closed r w v = tt
  stop_read-Kept (failed eagain) r w v = (v, refl, refl)
  stop_read-Kept (failed econnreset) r w v = tt
  stop_read-Kept (failed ebadf) r w v = tt
  stop_read-Kept (failed einprogress) r w v = tt
  stop_read-Kept (failed other) r w v = tt

  -- The loop ends within the bytes that are to come.
  read_loop-Kept :
      (is_os : IsOs os) (fuel i fd : ℕ) (r : Runner) (w : os.World)
      → Inv m r
      → IsValidAt r.heap i fd
      → os.pending w fd < fuel
      → Safely (read_loop os fuel (some i) r w) (λ t. Kept r t.0)
  unfolding read_loop read_next
  read_loop-Kept is_os zero i fd r w v k h = absurd (omega arith)
  read_loop-Kept is_os (suc fuel) i fd r w v k h =
      Safely->>= (receive_once os (some i) r w) _ _ _ (receive_once-Round m os is_os i r w fd v k)
        (λ t round. next (read_loop-Kept is_os fuel i fd) t.0 t.1 t.2 round)
    where
      then_kept :
          {a : Attempt} {r' : Runner} {w' : os.World} (result : Result (Runner × os.World))
          → Round m os i fd r w a r' w'
          → Safely result (λ t. Kept r' t.0)
          → Safely result (λ t. Kept r t.0)
      then_kept result round h =
          Safely-mono result _ _ h
            (λ t kept. (kept.0, kept.1 ∙ round.connections, kept.2 ∙ round.readable))

      next :
          ((r' : Runner) (w' : os.World)
            → Inv m r'
            → IsValidAt r'.heap i fd
            → os.pending w' fd < fuel
            → Safely (read_loop os fuel (some i) r' w') (λ t. Kept r' t.0))
          → (a : Attempt) (r' : Runner) (w' : os.World) → Round m os i fd r w a r' w'
          → Safely (read_next os (read_loop os fuel (some i)) (some i) a r' w') (λ t. Kept r t.0)
      next again some_bytes r' w' round =
          then_kept (read_loop os fuel (some i) r' w') round
            (again r' w' round.inv round.alive (omega (arith, round.fewer refl)))
      next again (no_bytes reply) r' w' round =
          then_kept (stop_read os reply r' w') round (stop_read-Kept reply r' w' round.inv)
      next again no_room r' w' round = absurd (round.roomy refl)

  -- From a runner in its invariant whose queue of readable sockets is not empty, and with fuel for a
  -- round more than there are bytes to come at the socket: `handle_socket_read` of the client ends.
  -- Unless it stops the program by an exit or because a queue is full, it keeps the invariant and
  -- takes exactly one entry from that queue. It makes no access outside an object and uses no
  -- buffer that has been deleted.
  pub handle_socket_read-Safely_client :
      (is_os : IsOs os) (fuel : ℕ) (r : Runner) (w : os.World)
      → Inv m r
      → 0 < r.readable_socket_list.queue_size
      → ((fd : ℕ) → os.pending w fd < fuel)
      → Safely (handle_socket_read os fuel r w) (λ t.
        Inv m t.0
        × (length t.0.heap ≡ length r.heap)
        × (t.0.readable_socket_list.queue_size + 1 ≡ r.readable_socket_list.queue_size))
  unfolding handle_socket_read
  handle_socket_read-Safely_client is_os fuel r w v some_entry enough =
      let h = IsHeld-Popped (length r.heap) r.readable_socket_list v.readable some_entry in
      let r' : Runner = record r { readable_socket_list = h.rest } in
      let v' = with_readable m r h.rest v h.rest_held in
      let (i, c, ep, at, ed) = deref_lem r' h.p h.points in
      rw (h.fronts, h.pops, ed)
        (elim (Bool-cases c.valid) [
          | inl live ↦
              rw (live, ep)
                (Safely-mono (read_loop os fuel (some i) r' w) _ _
                  (read_loop-Kept is_os fuel i c.fd r' w v'
                    (record { c = c; at = at; valid = live; same_fd = refl }) (enough c.fd))
                  (λ t kept. (
                    kept.0,
                    kept.1,
                    omega (arith, h.fewer, ap (λ (q : Queue Pointer). q.queue_size) kept.2),
                  )))
          | inr dead ↦ rw dead (v', refl, h.fewer)
        ])
