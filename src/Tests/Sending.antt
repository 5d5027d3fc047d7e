-- ===== src/Tests/Sending.antt =====
-- The client at a small system.
use latency_under_load.Prelude.{
  ℕ, zero, suc, ◌<◌, ◌≡◌, refl, inr, some, false, arith, length, get_elem?, replicate, err,
  no_space, faults, ◌>>=◌,
}
use latency_under_load.Prelude.Int.{pos}
use latency_under_load.Queue.{Queue, new_queue}
use latency_under_load.Queue.Refine.{Represents, Holds, next_index-lt, new_queue-Represents}
use latency_under_load.Config.{Config, closing}
use latency_under_load.Ticks.{Calibration, clock, nsec2ticks}
use latency_under_load.Runner.{Runner, new_runner, lookup}
use latency_under_load.Runner.Inv.{Inv}
use latency_under_load.Runner.Add.{grown, grown-Inv}
use latency_under_load.Server.Run.{new_runner-Inv}
use latency_under_load.Client.{Client, handle_socket_read, new_client, made_client, period_of}
use latency_under_load.Client.Loop.{Schedule, handle_event, send_iteration}
use latency_under_load.Client.Errors.{error_alone_faults}
use latency_under_load.Client.Turns.{send_iteration_closing}
use latency_under_load.Tests.Sample.{sample_os, start_world, sample_config, one_entry}

abbrev pub client_config : Config
client_config = record sample_config { server = false; extra_op = closing; warm = 2 }

-- A queue of numbers that is full with as many as `n` times `x`.
abbrev pub full {ℓ} : {A : Type ℓ} → ℕ → A → Queue A
full n x = record {
  max_queue_size = n;
  element_list = replicate n (some x);
  first_element_index = 0;
  last_element_index = 0;
  queue_size = n;
}

get_elem?-replicate {ℓ} :
    {A : Type ℓ} (n j : ℕ) (a : A) → j < n → get_elem? (replicate n a) j ≡ some a
get_elem?-replicate zero j a h = absurd (omega arith)
get_elem?-replicate (suc n) zero a h = refl
get_elem?-replicate (suc n) (suc j) a h = get_elem?-replicate n j a (omega arith)

Holds-replicate {ℓ} :
    {A : Type ℓ} (k n i : ℕ) (x : A) → i < n → Holds (replicate n (some x)) n i (replicate k x)
Holds-replicate zero n i x h = tt
Holds-replicate (suc k) n i x h =
    (get_elem?-replicate n i (some x) h, Holds-replicate k n _ x (next_index-lt n i h))

pub full-Represents {ℓ} :
    {A : Type ℓ} (n : ℕ) (x : A)
    → 0 < n
    → n < 1000
    → length (replicate n x) ≡ n
    → length (replicate n (some x)) ≡ n
    → Represents (full n x) (replicate n x)
full-Represents n x some_room small len len' = record {
  sized = omega arith;
  fits = omega arith;
  small = omega arith;
  cells = len';
  first_in = omega arith;
  last_in = omega arith;
  last_at = inr (omega arith);
  held = Holds-replicate n n 0 x some_room;
}

abbrev sending : Runner
sending = record (grown 5 (new_runner client_config)) {
  readable_socket_list = one_entry;
  writable_socket_list = one_entry;
}

pub grown_client-Inv : Inv 8 (grown 5 (new_runner client_config))
unfolding new_runner
grown_client-Inv =
    grown-Inv 8 5 (new_runner client_config)
      (new_runner-Inv client_config (omega arith) (omega arith)) (λ i c e live. cc) (omega arith)
      (omega arith)

abbrev client : Client
client = record (made_client client_config (pos 7)) { runner = sending; socket_list = full 41 5 }

abbrev one_socket : Client
one_socket = record client { socket_list = full 1 5 }

full_sockets : Represents {A = ℕ} (full 41 5) (replicate 41 5)
full_sockets = full-Represents 41 5 (omega arith) (omega arith) refl refl

abbrev pub fast : Calibration
fast = record {
  ticks_per_msec = 2_500_000;
  max_msec_convert = 3_000_000_000_000;
  base_ticks = pos 0;
}

abbrev schedule : Schedule
schedule = record { next_send = pos 10; last_conn = pos 0; new_connection_period = pos 0 }

send_iteration_closing_example :
    send_iteration sample_os (pos 11) client schedule start_world ≡ err no_space
unfolding new_client made_client period_of nsec2ticks new_runner new_queue
send_iteration_closing_example =
    send_iteration_closing sample_os fast clock client_config
      (made_client client_config (pos 1_000_000_000)) client (replicate 41 5) (pos 11) schedule
      start_world refl refl refl full_sockets (omega arith) (omega arith)

-- An error alone, at a socket that has no connection yet.
error_alone_faults_example :
    (handle_event sample_os fast clock
        (record { fd = 7; out = false })
        (made_client client_config (pos 7))
        start_world
      >>= λ t. handle_socket_read sample_os 2 t.0.runner t.1)
    ≡ err faults
unfolding new_runner lookup made_client new_queue
error_alone_faults_example =
    error_alone_faults sample_os fast clock 2 (record { fd = 7; out = false })
      (made_client client_config (pos 7)) start_world refl refl
      (new_queue-Represents 41 (omega arith) (omega arith)) (omega arith)
