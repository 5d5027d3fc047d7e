-- ===== src/Client/Loops.antt =====
-- The three loops of the client over its queues, from a client in its invariant, against any answers
-- of the system.
use latency_under_load.Prelude.{
  ℕ, suc, ◌≤◌, ◌<◌, ◌≡◌, refl, arith, Safely, Safely-mono, Safely-Returns, Faultless,
  Faultless-mono, times, times-Safely,
}
use latency_under_load.Queue.{size}
use latency_under_load.Ticks.{IsCounting, Calibration, Mode}
use latency_under_load.Runner.{Runner}
use latency_under_load.Runner.Inv.{Inv}
use latency_under_load.Client.{Client, handle_socket_read, handle_socket_write}
use latency_under_load.Client.Loop.{handle_reads, handle_replies, handle_writes}
use latency_under_load.Client.Read.{handle_socket_read-Safely_client}
use latency_under_load.Client.Write.{handle_socket_write-Safely_client}
use latency_under_load.Client.Replies.{AreTimed, set-AreTimed, handle_replies-Faultless}
use latency_under_load.Connection.Times.{other_buffers-IsTimed}
use latency_under_load.Client.Kept.{handle_socket_read-Stable, handle_socket_write-Stable}
use latency_under_load.Runner.Kept.{IsStable}
use latency_under_load.Os.{Os, IsOs}

-- The queues for times are not among the buffers.
timed-IsStable : (os : Os) → IsStable os (λ f. AreTimed f.heap)
timed-IsStable os = record {
  other_buffers = λ f i c c' all at same.
      set-AreTimed f.heap i c' all
        (other_buffers-IsTimed c c' same.same_sent same.same_times (all i c at));
  received = λ f fd n all. all;
  sent = λ f fd bytes all. all;
}

module _ (m : ℕ) (os : Os) (is_os : IsOs os) (calibration : Calibration) (mode : Mode) (fuel : ℕ)
    (enough : (w : os.World) (fd : ℕ) → os.pending w fd < fuel) where
  -- The loop over the readable sockets.
  pub handle_reads-Kept :
      (r : Runner) (w : os.World)
      → Inv m r
      → AreTimed r.heap
      → Safely (handle_reads os fuel r w) (λ t. Inv m t.0 × AreTimed t.0.heap)
  unfolding handle_reads size
  handle_reads-Kept r w v all =
      Safely-mono (times r.readable_socket_list.queue_size _ (r, w)) (I 0) _
        (times-Safely I _ keep r.readable_socket_list.queue_size (r, w) (v, all, refl))
        (λ t h. (h.0, h.1))
    where
      I : ℕ → Runner × os.World → Type 0
      I n s = Inv m s.0 × AreTimed s.0.heap × (s.0.readable_socket_list.queue_size ≡ n)

      keep :
          (n : ℕ) (s : Runner × os.World)
          → I (suc n) s
          → Safely (handle_socket_read os fuel s.0 s.1) (I n)
      keep n s (inv, timed, left_over) =
          Safely-mono (handle_socket_read os fuel s.0 s.1) _ (I n)
            (Safely-Returns (handle_socket_read os fuel s.0 s.1) _ _
              (handle_socket_read-Safely_client m os is_os fuel s.0 s.1 inv (omega arith)
                (enough s.1))
              (handle_socket_read-Stable os _ (timed-IsStable os) fuel s.0 s.1 timed))
            (λ t h. (h.0.0, h.1, omega (arith, h.0.2)))

  -- The loop over the writable sockets.
  pub handle_writes-Kept :
      (s : Client) (w : os.World)
      → Inv m s.runner
      → AreTimed s.runner.heap
      → Safely (handle_writes os s w) (λ t. Inv m t.0.runner × AreTimed t.0.runner.heap)
  unfolding handle_writes size
  handle_writes-Kept s w v all =
      Safely-mono (times s.runner.writable_socket_list.queue_size _ (s, w)) (I 0) _
        (times-Safely I _ keep s.runner.writable_socket_list.queue_size (s, w)
          (v, all, omega arith))
        (λ t h. (h.0, h.1))
    where
      I : ℕ → Client × os.World → Type 0
      I n s =
          Inv m s.0.runner
          × AreTimed s.0.runner.heap
          × (n ≤ s.0.runner.writable_socket_list.queue_size)

      keep :
          (n : ℕ) (s : Client × os.World)
          → I (suc n) s
          → Safely (handle_socket_write os s.0 s.1) (I n)
      keep n s (inv, timed, left_over) =
          Safely-mono (handle_socket_write os s.0 s.1) _ (I n)
            (Safely-Returns (handle_socket_write os s.0 s.1) _ _
              (handle_socket_write-Safely_client m os is_os s.0 s.1 inv (omega arith))
              (handle_socket_write-Stable os _ (timed-IsStable os) s.0 s.1 timed))
            (λ t h. (h.0.0, h.1.0, ground (arith, h.0.2)))

  -- From a client whose runner is in its invariant and whose connections have their queues for
  -- times, and whatever the system answers: the loops over its three queues make no access outside
  -- an object, use no buffer that has been deleted, and end, and unless they stop the program they
  -- keep all of this. The fuel is more than the bytes that one socket has pending.
  pub loops-Faultless :
      (counting : IsCounting calibration mode) (s : Client) (w : os.World)
      → Inv m s.runner
      → AreTimed s.runner.heap
      → Safely (handle_reads os fuel s.runner w) (λ t. Inv m t.0 × AreTimed t.0.heap)
        × Faultless
            (handle_replies os calibration mode s.runner w)
            (λ t. Inv m t.0 × AreTimed t.0.heap)
        × Safely (handle_writes os s w) (λ t. Inv m t.0.runner × AreTimed t.0.runner.heap)
  loops-Faultless counting s w v all = (
    handle_reads-Kept s.runner w v all,
    Faultless-mono (handle_replies os calibration mode s.runner w) _ _
        (handle_replies-Faultless m calibration mode counting os s.runner w v all)
        (λ t h. (h.0, h.1)),
    handle_writes-Kept s w v all,
  )
