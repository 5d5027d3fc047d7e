-- ===== src/Server/Run.antt =====
-- The server from its start: every state that it comes to is in the invariant.
use latency_under_load.Prelude.{
  ℕ, suc, ◌+◌, ◌*◌, ◌≤◌, ◌<◌, ◌≡◌, refl, ◌∙◌, ◌≢◌, inl, inr, some, [], arith, length, Safely,
  Safely->>=, Safely-mono, times, times-Safely, ne→==_false, ==_iff, Bool-cases, ltb, u32_mod,
  int_limit,
}
use latency_under_load.Queue
use latency_under_load.Queue.{Queue, new_queue, size}
use latency_under_load.Queue.Refine.{new_queue-Represents}
use latency_under_load.CBuffer.{max_queued_massage}
use latency_under_load.Config.{Config, num_extra_connection}
use latency_under_load.Runner.{
  Runner, new_runner, lookup, connection_at, set_socket_option, add_new_connection,
}
use latency_under_load.Runner.Inv.{IsHeld, Inv, push-IsHeld, with_readable}
use latency_under_load.Runner.Add.{IsFresh, add_new_connection-Inv, set_socket_option-Safely}
use latency_under_load.Server.{handle_socket_read, handle_connection_read, handle_socket_write}
use latency_under_load.Server.Read.{handle_socket_read-Safely}
use latency_under_load.Server.Answer.{handle_connection_read-Safely}
use latency_under_load.Server.Write.{handle_socket_write-Safely}
use latency_under_load.Server.Loop.{
  handle_reads, handle_answers, handle_writes, handle_event, accept_connection, unless_again,
}
use latency_under_load.Os.{
  Os, IsOs, Event, Errno, conn, eagain, econnreset, ebadf, einprogress, other,
}

-- A new runner, whose queues have room for an entry and fewer than an `int` counts.
pub new_runner-Inv :
    (config : Config)
    → 0 < config.mps
    → config.mps * (config.number_connection + num_extra_connection) < int_limit
    → Inv config.message_size (new_runner config)
unfolding new_runner
new_runner-Inv config pos small = record {
  message = refl;
  buffers = λ i c e live. cc;
  listed = λ i c e live. cc;
  writable = empty;
  readable = empty;
  complete = empty;
}
  where
    empty : IsHeld 0 (new_queue (config.mps * (config.number_connection + num_extra_connection)))
    empty = record {
      held = [];
      represents = new_queue-Represents _ (grind arith) small;
      inside = tt;
    }

module _ (m : ℕ) (os : Os) (is_os : IsOs os) (fuel : ℕ)
    (enough : (w : os.World) (fd : ℕ) → os.pending w fd < fuel) where
  -- The loop over the readable sockets never takes from an empty queue, and keeps the invariant.
  pub handle_reads-Safely :
      (r : Runner) (w : os.World)
      → Inv m r
      → Safely (handle_reads os fuel r w) (λ t. Inv m t.0 × (length t.0.heap ≡ length r.heap))
  unfolding handle_reads size
  handle_reads-Safely r w v =
      Safely-mono (times r.readable_socket_list.queue_size _ (r, w)) (I 0) _
        (times-Safely I _ keep r.readable_socket_list.queue_size (r, w) (v, refl, omega arith))
        (λ t h. (h.0, h.1))
    where
      I : ℕ → Runner × os.World → Type 0
      I n s =
          Inv m s.0 × (length s.0.heap ≡ length r.heap) × (n ≤ s.0.readable_socket_list.queue_size)

      keep :
          (n : ℕ) (s : Runner × os.World)
          → I (suc n) s
          → Safely (handle_socket_read os fuel s.0 s.1) (I n)
      keep n s (inv, same, left) =
          Safely-mono (handle_socket_read os fuel s.0 s.1) _ (I n)
            (handle_socket_read-Safely m os is_os fuel s.0 s.1 inv (omega arith) (enough s.1))
            (λ t h. (h.inv, h.connections ∙ same, omega (arith, h.at_most_one)))

  -- So does the loop over the writable sockets.
  pub handle_writes-Safely :
      (r : Runner) (w : os.World)
      → Inv m r
      → Safely (handle_writes os r w) (λ t. Inv m t.0 × (length t.0.heap ≡ length r.heap))
  unfolding handle_writes size
  handle_writes-Safely r w v =
      Safely-mono (times r.writable_socket_list.queue_size _ (r, w)) (I 0) _
        (times-Safely I _ keep r.writable_socket_list.queue_size (r, w) (v, refl, omega arith))
        (λ t h. (h.0, h.1))
    where
      I : ℕ → Runner × os.World → Type 0
      I n s =
          Inv m s.0 × (length s.0.heap ≡ length r.heap) × (n ≤ s.0.writable_socket_list.queue_size)

      keep :
          (n : ℕ) (s : Runner × os.World)
          → I (suc n) s
          → Safely (handle_socket_write os s.0 s.1) (I n)
      keep n s (inv, same, left) =
          Safely-mono (handle_socket_write os s.0 s.1) _ (I n)
            (handle_socket_write-Safely m os is_os s.0 s.1 inv (omega arith))
            (λ t h. (h.0, h.1 ∙ same, ground (arith, h.2)))

-- The loop over the complete messages of a runner in its invariant makes no access outside an
-- object and takes nothing from an empty queue. Unless a full queue stops the program, it keeps the
-- invariant and leaves the queue of complete messages empty.
pub handle_answers-Safely :
    (m : ℕ) (r : Runner)
    → Inv m r
    → Safely (handle_answers r) (λ r'.
      Inv m r' × (length r'.heap ≡ length r.heap) × (r'.readable_connection_list.queue_size ≡ 0))
unfolding handle_answers size
handle_answers-Safely m r v =
    times-Safely I handle_connection_read keep r.readable_connection_list.queue_size r
      (v, refl, refl)
  where
    I : ℕ → Runner → Type 0
    I n s = Inv m s × (length s.heap ≡ length r.heap) × (s.readable_connection_list.queue_size ≡ n)

    keep : (n : ℕ) (s : Runner) → I (suc n) s → Safely (handle_connection_read s) (I n)
    keep n s (inv, same, left) =
        Safely-mono (handle_connection_read s) _ (I n)
          (handle_connection_read-Safely m s inv (omega arith))
          (λ t h. (h.0, h.1 ∙ same, omega (arith, h.2)))

-- An event at the socket of a connection queues the connection.
pub ready-Safely :
    (m : ℕ) (os : Os) (lfd i : ℕ) (e : Event) (r : Runner) (w : os.World)
    → Inv m r
    → e.fd ≢ lfd
    → lookup e.fd r.connection_list ≡ some (some i)
    → i < length r.heap
    → Safely (handle_event os lfd e r w) (λ t. Inv m t.0)
unfolding handle_event connection_at
ready-Safely m os lfd i e r w v apart known within =
    let at : connection_at e.fd r ≡ (some i, r) = ground (arith, known) in
    rw (ne→==_false e.fd lfd apart, at)
      (Safely->>= (Queue.push (some i) r.readable_socket_list) _ _ _
        (push-IsHeld _ (some i) _ v.readable within) (λ q pushed. with_readable m r q v pushed.0))

-- An event at the listening socket adds a connection, if the system hands one out.
pub accept-Safely :
    (m : ℕ) (os : Os) (lfd fd : ℕ) (before : Errno) (e : Event) (r : Runner) (w : os.World)
    → Inv m r
    → e.fd ≡ lfd
    → (os.accept w lfd).0 ≡ conn fd before
    → IsFresh fd r
    → 0 < m
    → m * max_queued_massage < u32_mod
    → Safely (handle_event os lfd e r w) (λ t. Inv m t.0)
unfolding handle_event accept_connection unless_again
accept-Safely m os lfd fd before e r w v listening hands fresh pos small =
    rw ((==_iff e.fd lfd).1 listening, hands)
      (elim (Bool-cases (ltb 0 fd)) [
        | inl there ↦ rw there (
            Safely->>= (set_socket_option os r.config fd (os.accept w lfd).1) _ (λ _. Unit {0}) _
              (set_socket_option-Safely os r.config fd _)
              (λ w' _.
                Safely-mono (add_new_connection os fd r w') _ _
                  (add_new_connection-Inv m fd r v fresh pos small os w') (λ t h. h.0)))
        | inr zero_fd ↦ rw zero_fd (again before)
      ])
  where
    again : (e : Errno) → Safely (unless_again os e r (os.accept w lfd).1) (λ t. Inv m t.0)
    again eagain = v
    again econnreset = tt
    again ebadf = tt
    again einprogress = tt
    again other = tt
