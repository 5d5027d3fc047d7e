-- ===== src/Server/Whole.antt =====
-- The whole loop of the server, from its constructor on.
use latency_under_load.Prelude.{
  ℕ, zero, suc, ◌*◌, ◌<◌, ◌≡◌, refl, sym, some, true, false, get_elem?, ◌>>=◌, subst, Safely,
  Safely->>=, Safely-mono, Safely-Returns, u32_mod,
}
use latency_under_load.CBuffer.{max_queued_massage}
use latency_under_load.Config.{Config}
use latency_under_load.Connection.{Connection}
use latency_under_load.Runner.{Runner}
use latency_under_load.Runner.Inv.{Inv}
use latency_under_load.Server.Linked.{
  handle_reads-Linked, handle_answers-Linked, handle_writes-Linked,
}
use latency_under_load.Server.Loop.{handle_reads, handle_answers, handle_writes, iteration, run}
use latency_under_load.Server.Run.{
  new_runner-Inv, handle_reads-Safely, handle_answers-Safely, handle_writes-Safely,
}
use latency_under_load.Server.Events.{Serves, wait_events-Serves}
use latency_under_load.Server.Sensible.{IsSensible}
use latency_under_load.Server.Start.{new_server, new_server-Safely}
use latency_under_load.Server.Opened.{new_server-Linked}
use latency_under_load.Runner.Quiet.{IsQuiet}
use latency_under_load.Os.{Os, IsOs, polled, TracksFds}

module _ (os : Os) (tracks : TracksFds os) (m lfd : ℕ) (some_bytes : 0 < m)
    (small : m * max_queued_massage < u32_mod) (is_os : IsOs os) (fuel : ℕ)
    (enough : (w : os.World) (fd : ℕ) → os.pending w fd < fuel) where
  iteration-Serves :
      (r : Runner) (w : os.World)
      → Serves os tracks m lfd some_bytes small r w
      → Safely (iteration os fuel lfd r w) (λ t. Serves os tracks m lfd some_bytes small t.0 t.1)
  unfolding iteration
  iteration-Serves r w h =
      Safely->>= (handle_reads os fuel r w) _ _ _
        (Safely-Returns (handle_reads os fuel r w) _ _
          (handle_reads-Safely m os is_os fuel enough r w h.0)
          (handle_reads-Linked os tracks _ fuel r w h.1))
        (λ t₁ h₁.
          Safely->>= (handle_answers t₁.0) _ _ _
            (Safely-Returns (handle_answers t₁.0) _ _ (handle_answers-Safely m t₁.0 h₁.0.0)
              (handle_answers-Linked os tracks _ t₁.0 t₁.1 h₁.1))
            (λ r₂ h₂.
              Safely->>= (handle_writes os r₂ t₁.1) _ _ _
                (Safely-Returns (handle_writes os r₂ t₁.1) _ _
                  (handle_writes-Safely m os is_os fuel enough r₂ t₁.1 h₂.0.0)
                  (handle_writes-Linked os tracks _ r₂ t₁.1 h₂.1))
                (λ t₃ h₃.
                  wait_events-Serves os tracks m lfd some_bytes small _ t₃.0 t₃.1 _ (h₃.0.0, h₃.1)
                    refl)))

  pub run-Serves :
      (n : ℕ) (r : Runner) (w : os.World)
      → Serves os tracks m lfd some_bytes small r w
      → Safely (run os n fuel lfd r w) (λ t. Serves os tracks m lfd some_bytes small t.0 t.1)
  unfolding run
  run-Serves zero r w h = h
  run-Serves (suc n) r w h =
      Safely->>= (iteration os fuel lfd r w) _ _ _ (iteration-Serves r w h)
        (λ t kept. run-Serves n t.0 t.1 kept)

module _ (os : Os) (tracks : TracksFds os) (is_os : IsOs os) (fuel : ℕ) (config : Config)
    (enough : (w : os.World) (fd : ℕ) → os.pending w fd < fuel) (sensible : IsSensible config) where
  -- In a world where nothing is polled, with a sensible configuration, and whatever the system
  -- answers that keeps its account of the file descriptors: the constructor of the server and any
  -- number of iterations of its loop make no access outside an object, use no buffer that has been
  -- deleted, delete none twice, take nothing from an empty queue, and end. Unless an exit or a full
  -- queue stops the program, each valid connection then has its buffers and is polled for what it
  -- receives. The fuel of a read loop is more than the bytes that one socket has pending.
  pub serve-Safely :
      (n : ℕ) (w : os.World)
      → IsQuiet os w
      → Safely (new_server os config w >>= λ s. run os n fuel s.lfd s.runner s.world) (λ t.
        Inv config.message_size t.0
        × ((i : ℕ) (c : Connection)
            → get_elem? t.0.heap i ≡ some c
            → c.valid ≡ true
            → os.fd_state t.1 c.fd ≡ polled false))
  serve-Safely n w quiet =
      Safely->>= (new_server os config w) _ _ _
        (Safely-Returns (new_server os config w) _ _ (new_server-Safely os config w)
          (new_server-Linked os tracks config w quiet))
        (λ s (_, (made, linked)).
          let v = new_runner-Inv config sensible.some_messages sensible.queues_fit in
          Safely-mono (run os n fuel s.lfd s.runner s.world) _ _
            (run-Serves os tracks config.message_size s.lfd sensible.some_bytes sensible.buffers_fit
              is_os fuel enough n s.runner s.world
              (subst (Inv config.message_size) (sym made) v, linked))
            (λ t h. (h.0, h.1.opens)))
