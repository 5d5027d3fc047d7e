-- ===== src/Client/Run.antt =====
-- The loop of the client over its queue of readable sockets.
use latency_under_load.Prelude.{
  ℕ, suc, ◌<◌, ◌≡◌, refl, ◌∙◌, arith, length, Safely, Safely-mono, times-Safely,
}
use latency_under_load.Queue.{size}
use latency_under_load.Runner.{Runner}
use latency_under_load.Runner.Inv.{Inv}
use latency_under_load.Client.{handle_socket_read}
use latency_under_load.Client.Read.{handle_socket_read-Safely_client}
use latency_under_load.Client.Loop.{handle_reads}
use latency_under_load.Os.{Os, IsOs}

module _ (m : ℕ) (os : Os) (is_os : IsOs os) where
  -- From a runner in its invariant, and with more fuel than a socket has bytes pending: the loop
  -- over the readable sockets keeps the invariant and leaves their queue empty, unless it exits or
  -- finds a queue full. It makes no access outside an object.
  pub handle_reads-Safely_client :
      (fuel : ℕ) (r : Runner) (w : os.World)
      → ((w : os.World) (fd : ℕ) → os.pending w fd < fuel)
      → Inv m r
      → Safely (handle_reads os fuel r w) (λ t.
        Inv m t.0 × (length t.0.heap ≡ length r.heap) × (t.0.readable_socket_list.queue_size ≡ 0))
  unfolding handle_reads size
  handle_reads-Safely_client fuel r w enough v =
      times-Safely I _ keep r.readable_socket_list.queue_size (r, w) (v, refl, refl)
    where
      I : ℕ → Runner × os.World → Type 0
      I n s =
          Inv m s.0 × (length s.0.heap ≡ length r.heap) × (s.0.readable_socket_list.queue_size ≡ n)

      keep :
          (n : ℕ) (s : Runner × os.World)
          → I (suc n) s
          → Safely (handle_socket_read os fuel s.0 s.1) (I n)
      keep n s (inv, same, left) =
          Safely-mono (handle_socket_read os fuel s.0 s.1) _ (I n)
            (handle_socket_read-Safely_client m os is_os fuel s.0 s.1 inv (omega arith)
              (enough s.1))
            (λ t h. (h.0, h.1 ∙ same, omega (arith, h.2)))
