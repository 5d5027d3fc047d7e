-- ===== src/Server/Start.antt =====
-- The constructor and the destructor of `server_t`.
use latency_under_load.Prelude.{refl, ◌≡◌, false, ℕ, Result, ok, ◌>>=◌, Safely, Safely->>=}
use latency_under_load.Config.{Config}
use latency_under_load.Runner.{Runner, new_runner, check, check_fd, init_epoll, set_socket_option}
use latency_under_load.Runner.Add.{check_fd-Safely, check-Safely, set_socket_option-Safely}
use latency_under_load.Os.{Os}

-- A server with its file descriptors: for the events, and for new connections.
pub record Server (os : Os) : Type 0 where
  pub runner : Runner
  pub efd : ℕ
  pub lfd : ℕ
  pub world : os.World

module _ (os : Os) where
  open os use {World, socket, bind, listen, epoll_add, epoll_del, close}

  -- The listening socket.
  unfoldable pub init_socket : Config → World → Result (ℕ × World)
  init_socket config w = do
    (lfd, w₁) ← check_fd os (socket w)
    w₂ ← check os (bind w₁ lfd)
    w₃ ← set_socket_option os config lfd w₂
    w₄ ← check os (listen w₃ lfd)
    w₅ ← check os (epoll_add w₄ lfd false)
    ok (lfd, w₅)

  unfoldable pub new_server : Config → World → Result (Server os)
  new_server config w = do
    (efd, w₁) ← init_epoll os config w
    (lfd, w₂) ← init_socket config w₁
    ok (record { runner = new_runner config; efd = efd; lfd = lfd; world = w₂ })

  -- The destructor.
  unfoldable pub delete_server : Server os → Result World
  delete_server s = do
    w₁ ← check os (epoll_del s.world s.lfd)
    w₂ ← check os (close w₁ s.lfd)
    check os (close w₂ s.efd)

init_socket-Safely :
    (os : Os) (config : Config) (w : os.World) → Safely (init_socket os config w) (λ _. Unit {0})
unfolding init_socket
init_socket-Safely os config w =
    Safely->>= (check_fd os (os.socket w)) _ (λ _. Unit {0}) _ (check_fd-Safely os _)
      (λ t _.
        Safely->>= (check os (os.bind t.1 t.0)) _ (λ _. Unit {0}) _ (check-Safely os _)
          (λ w₂ _.
            Safely->>= (set_socket_option os config t.0 w₂) _ (λ _. Unit {0}) _
              (set_socket_option-Safely os config t.0 w₂)
              (λ w₃ _.
                Safely->>= (check os (os.listen w₃ t.0)) _ (λ _. Unit {0}) _ (check-Safely os _)
                  (λ w₄ _.
                    Safely->>= (check os (os.epoll_add w₄ t.0 false)) _ (λ _. Unit {0}) _
                      (check-Safely os _) (λ w₅ _. tt)))))

-- The constructor of the server either exits, as a call of the system fails, or makes a runner without
-- connections.
pub new_server-Safely :
    (os : Os) (config : Config) (w : os.World)
    → Safely (new_server os config w) (λ s. s.runner ≡ new_runner config)
unfolding new_server init_epoll
new_server-Safely os config w =
    Safely->>= (init_epoll os config w) _ (λ _. Unit {0}) _ (check_fd-Safely os _)
      (λ t _.
        Safely->>= (init_socket os config t.1) _ (λ _. Unit {0}) _
          (init_socket-Safely os config t.1) (λ s _. refl))
