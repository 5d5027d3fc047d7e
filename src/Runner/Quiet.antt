-- ===== src/Runner/Quiet.antt =====
-- A world where nothing is polled, and what opens in it.
use latency_under_load.Prelude.{
  ℕ, ◌≡◌, refl, sym, ◌∙◌, ◌≢◌, ◌*◌, some, none, Option, Bool, ap, Returns,
}
use native.Mathlib.Decide.{ℕ_discrete}
use latency_under_load.Config.{Config}
use latency_under_load.CBuffer.{max_queued_massage}
use latency_under_load.Runner.{check_fd, init_epoll}
use latency_under_load.Runner.Linked.{idle_apart}
use latency_under_load.Os.{Os, polled, Opens, TracksFds}

module _ (os : Os) where
  -- No file descriptor is polled.
  abbrev pub IsQuiet : os.World → Type 0
  IsQuiet w = (x : ℕ) (out : Bool) → os.fd_state w x ≢ polled out

  pub check_fd-Returns :
      (t : Option ℕ × os.World) (P : ℕ × os.World → Type 0)
      → ((fd : ℕ) → t ≡ (some fd, t.1) → P (fd, t.1))
      → Returns (check_fd os t) P
  check_fd-Returns (some fd, w) P h = h fd refl
  check_fd-Returns (none, w) P h = tt

  pub Opens-IsQuiet : (fd : ℕ) (w w' : os.World) → IsQuiet w → Opens os fd w w' → IsQuiet w'
  Opens-IsQuiet fd w w' quiet opening x out e = elim (ℕ_discrete x fd) [
    | yes here ↦ idle_apart out (sym opening.1 ∙ ap (os.fd_state w') (sym here) ∙ e)
    | no ne ↦ quiet x out (sym (opening.2 x ne) ∙ e)
  ]

  module _ (tracks : TracksFds os) where
    pub init_epoll-IsQuiet :
        (config : Config) (w : os.World)
        → IsQuiet w
        → Returns (init_epoll os config w) (λ t. IsQuiet t.1)
    unfolding init_epoll
    init_epoll-IsQuiet config w quiet =
        let n = max_queued_massage * config.number_connection in
        check_fd-Returns (os.epoll_create w n) _
          (λ fd e. Opens-IsQuiet fd w _ quiet (tracks.create_opens w n fd _ e))
