-- ===== src/Server/Opened.antt =====
-- The constructor of the server: what it polls.
use latency_under_load.Prelude.{
  ℕ, ◌≡◌, refl, sym, ◌∙◌, inl, Bool, true, false, ok, ◌>>=◌, Returns, Returns->>=,
}
use native.Mathlib.Decide.{ℕ_discrete}
use latency_under_load.Config.{Config}
use latency_under_load.Runner.{new_runner, check, check_fd, init_epoll, set_socket_option}
use latency_under_load.Runner.Kept.{frame}
use latency_under_load.Runner.Linked.{Linked}
use latency_under_load.Runner.Options.{check_same, set_socket_option_same}
use latency_under_load.Runner.Quiet.{IsQuiet, check_fd-Returns, Opens-IsQuiet, init_epoll-IsQuiet}
use latency_under_load.Server.Start.{init_socket, new_server}
use latency_under_load.Os.{Os, polled, SameFds, TracksFds}

module _ (os : Os) where
  module _ (tracks : TracksFds os) where
    -- The listening socket is all that is polled.
    init_socket_polls :
        (config : Config) (w : os.World)
        → IsQuiet os w
        → Returns
            (init_socket os config w)
            (λ t. (x : ℕ) (out : Bool) → os.fd_state t.1 x ≡ polled out → x ≡ t.0)
    unfolding init_socket
    init_socket_polls config w quiet =
        Returns->>= (check_fd os (os.socket w)) _ (λ t. IsQuiet os t.1) _
          (check_fd-Returns os (os.socket w) _
            (λ fd e. Opens-IsQuiet os fd w _ quiet (tracks.socket_opens w fd _ e)))
          (λ t quiet₁.
            let bound = os.bind t.1 t.0 in
            Returns->>= (check os bound) _ (SameFds os t.1) _
              (check_same os t.1 t.1 bound (λ x. refl) (tracks.bind_same t.1 t.0))
              (λ w₂ h₂.
                Returns->>= (set_socket_option os config t.0 w₂) _ (SameFds os w₂) _
                  (set_socket_option_same os tracks config t.0 w₂)
                  (λ w₃ h₃.
                    let listening = os.listen w₃ t.0 in
                    Returns->>= (check os listening) _ (SameFds os w₃) _
                      (check_same os w₃ w₃ listening (λ x. refl) (tracks.listen_same w₃ t.0))
                      (λ w₄ h₄.
                        let quiet₄ : IsQuiet os w₄ =
                          λ x out e. quiet₁ x out (sym (h₂ x) ∙ sym (h₃ x) ∙ sym (h₄ x) ∙ e) in
                        polls t.0 w₄ quiet₄ (os.epoll_add w₄ t.0 false).0
                          (os.epoll_add w₄ t.0 false).1 refl))))
      where
        polls :
            (lfd : ℕ) (w₄ : os.World)
            → IsQuiet os w₄
            → (b : Bool) (w₅ : os.World) → os.epoll_add w₄ lfd false ≡ (b, w₅)
            → Returns {A = ℕ × os.World}
                (check os (b, w₅) >>= λ w'. ok (lfd, w'))
                (λ t. (x : ℕ) (out : Bool) → os.fd_state t.1 x ≡ polled out → x ≡ t.0)
        polls lfd w₄ quiet₄ false w₅ e = tt
        polls lfd w₄ quiet₄ true w₅ e = λ x out p. elim (ℕ_discrete x lfd) [
          | yes here ↦ here
          | no ne ↦ absurd (quiet₄ x out (sym ((tracks.add_polls w₄ lfd false w₅ e).1 x ne) ∙ p))
        ]

    -- The new server has no connection, and polls its listening socket only.
    pub new_server-Linked :
        (config : Config) (w : os.World)
        → IsQuiet os w
        → Returns (new_server os config w) (λ s.
          (s.runner ≡ new_runner config)
          × Linked os (λ out x. x ≡ s.lfd) (frame os s.runner s.world))
    unfolding new_server new_runner
    new_server-Linked config w quiet =
        Returns->>= (init_epoll os config w) _ _ _ (init_epoll-IsQuiet os tracks config w quiet)
          (λ t quiet₁.
            Returns->>= (init_socket os config t.1) _ _ _ (init_socket_polls config t.1 quiet₁)
              (λ s polls. (
                refl,
                record {
                  opens = λ i c e live. cc;
                  listed = λ i c e live. cc;
                  known = λ x out e. inl (polls x out e);
                },
              )))
