-- ===== src/Tests/Pipe.antt =====
-- A system that delivers given bytes and takes those that are sent, a few at a time.
use latency_under_load.Prelude.{
  ℕ, zero, suc, ◌+◌, ◌≤◌, ◌<◌, ◌≡◌, refl, true, List, [], ◌∷◌, ◌++◌, none, some, arith, length,
  take, drop,
}
use latency_under_load.Prelude.Int.{pos}
use latency_under_load.Runner.Wire.{IsWire}
use latency_under_load.Os.{
  Os, IsOs, Received, got, failed, took, not_accepted, connected, eagain, shut,
}

-- How many bytes are delivered where `n` are asked for.
abbrev piece_size : ℕ → ℕ
piece_size zero = 0
piece_size (suc zero) = 1
piece_size (suc (suc zero)) = 2
piece_size (suc (suc (suc n))) = 3

abbrev pub deliver : List ℕ → ℕ → Received × List ℕ
deliver [] n = (failed eagain, [])
deliver (x ∷ xs) zero = (failed eagain, x ∷ xs)
deliver (x ∷ xs) (suc n) = (got (x ∷ take (piece_size n) xs), drop (piece_size n) xs)

-- The bytes that are to come, and those that have been taken.
pub record Pipe : Type 0 where
  pub incoming : List ℕ
  pub taken : List ℕ

abbrev pub pipe : List ℕ → Pipe
pipe bytes = record { incoming = bytes; taken = [] }

abbrev pub pipe_os : Os
pipe_os = record {
  World = Pipe;
  recv = λ w fd n. (let t = deliver w.incoming n in (t.0, record w { incoming = t.1 }));
  send = λ w fd bytes.
      (let k = piece_size (length bytes) in (took k, record w { taken = w.taken ++ take k bytes }));
  epoll_add = λ w fd out. (true, w);
  epoll_del = λ w fd. (true, w);
  epoll_wait = λ w n. (some [], w);
  close = λ w fd. (true, w);
  accept = λ w lfd. (not_accepted eagain, w);
  socket = λ w. (none, w);
  bind = λ w fd. (true, w);
  listen = λ w fd. (true, w);
  epoll_create = λ w n. (none, w);
  connect = λ w fd. (connected, w);
  setsockopt_rcvbuf = λ w fd n. (true, w);
  setsockopt_sndbuf = λ w fd n. (true, w);
  setsockopt_nodelay = λ w fd. (true, w);
  fcntl_getfl = λ w fd. (some 2, w);
  fcntl_setfl = λ w fd flags. (true, w);
  alarm = λ w n. w;
  current_ticks = λ w. (pos 1000, w);
  pending = λ w fd. length w.incoming;
  fd_state = λ w fd. shut;
}

length-take_few : (n : ℕ) (xs : List ℕ) → length (take n xs) ≤ n
length-take_few zero xs = omega arith
length-take_few (suc n) [] = omega arith
length-take_few (suc n) (x ∷ xs) = omega (arith, length-take_few n xs)

length-drop-take : (n : ℕ) (xs : List ℕ) → length (drop n xs) + length (take n xs) ≡ length xs
length-drop-take zero xs = omega arith
length-drop-take (suc n) [] = refl
length-drop-take (suc n) (x ∷ xs) = omega (arith, length-drop-take n xs)

piece_size_few : (n : ℕ) → piece_size n ≤ n
piece_size_few zero = omega arith
piece_size_few (suc zero) = omega arith
piece_size_few (suc (suc zero)) = omega arith
piece_size_few (suc (suc (suc n))) = omega arith

deliver_bounds :
    (w : List ℕ) (n : ℕ) (bytes w' : List ℕ)
    → deliver w n ≡ (got bytes, w')
    → (0 < length bytes) × (length bytes ≤ n) × (length w' + length bytes ≤ length w)
deliver_bounds [] n bytes w' e = cc
deliver_bounds (x ∷ xs) zero bytes w' e = cc
deliver_bounds (x ∷ xs) (suc n) bytes w' e =
    let k = piece_size n in
    let few = piece_size_few n in
    let some_few = length-take_few k xs in
    let all = length-drop-take k xs in
    let same : x ∷ take k xs ≡ bytes = cc in
    let rest : drop k xs ≡ w' = cc in rw (← same, ← rest) (omega arith, omega arith, omega arith)

pub pipe-IsOs : IsOs pipe_os
pipe-IsOs = record {
  recv_bounds =
      λ w fd n bytes w' e. deliver_bounds w.incoming n bytes w'.incoming (delivered w n bytes w' e);
  send_bounds = λ w fd bytes k w' e.
      (let same : piece_size (length bytes) ≡ k = cc in
        let few = piece_size_few (length bytes) in omega arith);
}
  where
    delivered :
        (w : Pipe) (n : ℕ) (bytes : List ℕ) (w' : Pipe)
        → pipe_os.recv w 0 n ≡ (got bytes, w')
        → deliver w.incoming n ≡ (got bytes, w'.incoming)
    delivered w n bytes w' e = cc

pub pipe-IsWire : IsWire pipe_os (λ w fd. w.taken)
pipe-IsWire = record { takes = λ w fd bytes k w' e. cc; takes_none = λ w fd bytes e w' h. cc }
