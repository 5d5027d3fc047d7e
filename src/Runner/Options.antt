-- ===== src/Runner/Options.antt =====
-- The options of a socket, and what they leave of the file descriptors.
use latency_under_load.Prelude.{
  ℕ, ◌∙◌, none, some, Option, Bool, true, false, if◌then◌else◌, ok, Returns, Returns->>=,
  Returns-if, refl,
}
use Prim.Native.Nat.{bit_or}
use latency_under_load.Config.{Config, snd_rcv_buffer_size}
use latency_under_load.Runner.{check, set_nonblocking_socket, set_socket_option, o_nonblock}
use latency_under_load.Os.{Os, SameFds, TracksFds}

module _ (os : Os) where
  pub check-Returns : (t : Bool × os.World) (P : os.World → Type 0) → P t.1 → Returns (check os t) P
  check-Returns (true, w) P h = h
  check-Returns (false, w) P h = tt

  then_same : (w w' w'' : os.World) → SameFds os w w' → SameFds os w' w'' → SameFds os w w''
  then_same w w' w'' h k x = k x ∙ h x

  -- One more call that leaves the file descriptors as they were.
  pub check_same :
      (w w' : os.World) (t : Bool × os.World)
      → SameFds os w w'
      → SameFds os w' t.1
      → Returns (check os t) (SameFds os w)
  check_same w w' t h k = check-Returns t (SameFds os w) (then_same w w' t.1 h k)

  module _ (tracks : TracksFds os) where
    set_nonblocking_socket_same :
        (fd : ℕ) (w : os.World) → SameFds os w (set_nonblocking_socket os fd w).1
    unfolding set_nonblocking_socket
    set_nonblocking_socket_same fd w =
        flags_set (os.fcntl_getfl w fd).0 (os.fcntl_getfl w fd).1 (tracks.getfl_same w fd)
      where
        with_flags : Option ℕ → os.World → Bool × os.World
        with_flags flags w' = elim flags [
          | none ↦ (false, w')
          | some f ↦ os.fcntl_setfl w' fd (bit_or f o_nonblock)
        ]

        flags_set :
            (flags : Option ℕ) (w' : os.World)
            → SameFds os w w'
            → SameFds os w (with_flags flags w').1
        flags_set none w' h = h
        flags_set (some f) w' h = then_same w w' _ h (tracks.setfl_same w' fd (bit_or f o_nonblock))

    pub set_socket_option_same :
        (config : Config) (fd : ℕ) (w : os.World)
        → Returns (set_socket_option os config fd w) (SameFds os w)
    unfolding set_socket_option
    set_socket_option_same config fd w =
        let rcvbuf = os.setsockopt_rcvbuf w fd snd_rcv_buffer_size in
        Returns->>= (check os rcvbuf) _ (SameFds os w) _
          (check_same w w rcvbuf (λ x. refl) (tracks.rcvbuf_same w fd snd_rcv_buffer_size))
          (λ w₁ h₁.
            let sndbuf = os.setsockopt_sndbuf w₁ fd snd_rcv_buffer_size in
            Returns->>= (check os sndbuf) _ (SameFds os w) _
              (check_same w w₁ sndbuf h₁ (tracks.sndbuf_same w₁ fd snd_rcv_buffer_size))
              (λ w₂ h₂.
                let nodelay = os.setsockopt_nodelay w₂ fd in
                Returns->>= (if config.tcp_nodelay then check os nodelay else ok w₂) _
                  (SameFds os w) _
                  (Returns-if config.tcp_nodelay (check os nodelay) (ok w₂) (SameFds os w)
                    (check_same w w₂ nodelay h₂ (tracks.nodelay_same w₂ fd)) h₂)
                  (λ w₃ h₃.
                    check_same w w₃ (set_nonblocking_socket os fd w₃) h₃
                      (set_nonblocking_socket_same fd w₃))))
