-- ===== src/Runner/Add.antt =====
-- New connections, and the map from file descriptors to connections.
use latency_under_load.Prelude.{
  Option, ℕ, ◌+◌, ◌*◌, ◌≤◌, ◌<◌, ◌≡◌, refl, ◌≢◌, inl, inr, none, some, Bool, true, false, List, [],
  ◌∷◌, ◌++◌, arith, length, get_elem?, length-append, get_elem?-append_cases, Result, ok, Safely,
  Safely->>=, ◌==◌, if◌then◌else◌, u32_mod, ◌>>=◌,
}
use latency_under_load.Queue.{Queue}
use latency_under_load.CBuffer.{max_queued_massage, new_buffer}
use latency_under_load.CBuffer.OneSlot.{new_buffer-IsOneSlot}
use latency_under_load.Config.{Config, snd_rcv_buffer_size}
use latency_under_load.Connection.{Connection, new_connection}
use latency_under_load.Runner.{
  Runner, Pointer, lookup, insert, check, check_fd, add_new_connection, set_socket_option,
}
use latency_under_load.Runner.Inv.{IsIn, IsHeld, All, HasSlot, Inv}
use latency_under_load.Os.{Os}

-- A map after an insertion.
pub lookup-insert {ℓ} :
    {V : Type ℓ} (k j : ℕ) (v : V) (entries : List (ℕ × V))
    → lookup j (insert k v entries) ≡ (if k == j then some v else lookup j entries)
unfolding lookup insert
lookup-insert k j v [] = ground arith
lookup-insert k j v ((i, u) ∷ entries) = ground (arith, lookup-insert k j v entries)

All-mono : (n n' : ℕ) (ps : List Pointer) → n ≤ n' → All (IsIn n) ps → All (IsIn n') ps
All-mono n n' [] h a = tt
All-mono n n' (none ∷ ps) h a = absurd a.0
All-mono n n' (some i ∷ ps) h a = (omega (arith, a.0), All-mono n n' ps h a.1)

IsHeld-mono : (n n' : ℕ) (q : Queue Pointer) → n ≤ n' → IsHeld n q → IsHeld n' q
IsHeld-mono n n' q h k = record {
  held = k.held;
  represents = k.represents;
  inside = All-mono n n' k.held h k.inside;
}

-- No valid connection has the file descriptor, as the system promises of one that it hands out.
abbrev pub IsFresh : ℕ → Runner → Type 0
IsFresh fd r = (i : ℕ) (c : Connection) → get_elem? r.heap i ≡ some c → c.valid ≡ true → c.fd ≢ fd

-- A test of what a call returns stops the program or goes on.
pub check-Safely : (os : Os) (t : Bool × os.World) → Safely (check os t) (λ _. Unit {0})
check-Safely os (true, w) = tt
check-Safely os (false, w) = tt

pub check_fd-Safely : (os : Os) (t : Option ℕ × os.World) → Safely (check_fd os t) (λ _. Unit {0})
check_fd-Safely os (some fd, w) = tt
check_fd-Safely os (none, w) = tt

-- The runner with a new connection.
abbrev pub grown : ℕ → Runner → Runner
grown fd r = record r {
  connection_list = insert fd (some (length r.heap)) r.connection_list;
  heap = r.heap ++ new_connection r.config fd (length r.connection_list) ∷ [];
}

pub length-grown : (fd : ℕ) (r : Runner) → length (grown fd r).heap ≡ length r.heap + 1
length-grown fd r =
    omega (arith, length-append r.heap (new_connection r.config fd (length r.connection_list) ∷ []))

module _ (m fd : ℕ) (r : Runner) (v : Inv m r) (fresh : IsFresh fd r) (pos : 0 < m)
    (small : m * max_queued_massage < u32_mod) where
  held : (q : Queue Pointer) → IsHeld (length r.heap) q → IsHeld (length (grown fd r).heap) q
  held q h = IsHeld-mono (length r.heap) _ q (omega (arith, length-grown fd r)) h

  new-HasSlot :
      HasSlot m (new_connection r.config fd (length r.connection_list)).write_buffer
      × HasSlot m (new_connection r.config fd (length r.connection_list)).read_buffer
  unfolding new_connection new_buffer
  new-HasSlot =
      rw v.message
        ((new_buffer-IsOneSlot m pos small, refl), (new_buffer-IsOneSlot m pos small, refl))

  pub grown-Inv : Inv m (grown fd r)
  unfolding new_connection
  grown-Inv = record {
    message = v.message;
    buffers = λ j d at live. elim (get_elem?-append_cases r.heap _ j d at) [
      | inl (_, same) ↦ rw same new-HasSlot
      | inr old ↦ v.buffers j d old live
    ];
    listed = λ j d at live. elim (get_elem?-append_cases r.heap _ j d at) [
      | inl (here, same) ↦
          rw (same, here)
            (ground (arith, lookup-insert fd fd (some (length r.heap)) r.connection_list))
      | inr old ↦ ground (
        arith,
        lookup-insert fd d.fd (some (length r.heap)) r.connection_list,
        fresh j d old live,
        v.listed j d old live,
      )
    ];
    writable = held r.writable_socket_list v.writable;
    readable = held r.readable_socket_list v.readable;
    complete = held r.readable_connection_list v.complete;
  }

  -- A connection that is added has its buffers and its place in the map, and the others keep theirs,
  -- unless the system refuses it and the program exits. It has a file descriptor that no valid
  -- connection has, and messages of at least a byte, of which 100 do not wrap round 32 bits.
  pub add_new_connection-Inv :
      (os : Os) (w : os.World)
      → Safely (add_new_connection os fd r w) (λ t.
        Inv m t.0
        × (length t.0.heap ≡ length r.heap + 1)
        × (lookup fd t.0.connection_list ≡ some (some (length r.heap))))
  unfolding add_new_connection
  add_new_connection-Inv os w =
      Safely->>= (check os (os.epoll_add w fd false)) _ (λ _. Unit {0}) _ (check-Safely os _)
        (λ w' _. (
          grown-Inv,
          length-grown fd r,
          ground (arith, lookup-insert fd fd (some (length r.heap)) r.connection_list),
        ))

-- The options of a socket stop the program or are set.
pub set_socket_option-Safely :
    (os : Os) (config : Config) (fd : ℕ) (w : os.World)
    → Safely (set_socket_option os config fd w) (λ _. Unit {0})
unfolding set_socket_option
set_socket_option-Safely os config fd w =
    step (check os (os.setsockopt_rcvbuf w fd snd_rcv_buffer_size)) _ (check-Safely os _) (λ w₁.
      step (check os (os.setsockopt_sndbuf w₁ fd snd_rcv_buffer_size)) _ (check-Safely os _)
        (λ w₂. step (delay w₂) _ (delay-Safely config.tcp_nodelay w₂) (λ w₃. check-Safely os _)))
  where
    delay_if : Bool → os.World → Result os.World
    delay_if b w₂ = if b then check os (os.setsockopt_nodelay w₂ fd) else ok w₂

    delay : os.World → Result os.World
    delay = delay_if config.tcp_nodelay

    delay-Safely : (b : Bool) (w₂ : os.World) → Safely (delay_if b w₂) (λ _. Unit {0})
    delay-Safely true w₂ = check-Safely os _
    delay-Safely false w₂ = tt

    step :
        (a : Result os.World) (f : os.World → Result os.World)
        → Safely a (λ _. Unit {0})
        → ((w' : os.World) → Safely (f w') (λ _. Unit {0}))
        → Safely (a >>= f) (λ _. Unit {0})
    step a f h k = Safely->>= a _ (λ _. Unit {0}) (λ _. Unit {0}) h (λ w' _. k w')
