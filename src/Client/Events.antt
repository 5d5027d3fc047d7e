-- ===== src/Client/Events.antt =====
-- The events of the client: a socket has been connected, or has something to read.
use latency_under_load.Prelude.{
  Bool, sym, ℕ, ◌<◌, ◌≡◌, ◌∙◌, refl, ap, subst, inl, inr, some, none, Option, true, false, List, [],
  ◌∷◌, arith, length, Faultless, Faultless->>=, Safely-Faultless, Bool-cases,
}
use latency_under_load.Queue.{Queue}
use latency_under_load.Queue
use latency_under_load.Config.{Config}
use latency_under_load.Ticks.{Calibration, Mode}
use latency_under_load.Runner.{Runner, lookup, connection_at}
use latency_under_load.Runner.Inv.{with_readable, push-IsHeld}
use latency_under_load.Client.{Client}
use latency_under_load.Client.Loop.{handle_event, handle_events, wait_events}
use latency_under_load.Client.Plays.{IsPlayable, Plays, same-Plays}
use latency_under_load.Os.{
  Os, Event, SameFds, SameBut, IsOther, WerePolled, AreWritable, TracksFds, ConnectsCleanly, polled,
}
use latency_under_load.Client.Connect.{connect_new_socket-Plays}

-- The events are of different file descriptors, each polled for what the event says.
abbrev pub AreAwaited : (os : Os) → os.World → List Event → Type 0
AreAwaited os w [] = Unit
AreAwaited os w (e ∷ events) =
    (os.fd_state w e.fd ≡ polled e.out) × IsOther e.fd events × AreAwaited os w events

WerePolled-AreAwaited :
    (os : Os) (w : os.World) (events : List Event)
    → WerePolled os w events
    → AreWritable os w events
    → AreAwaited os w events
WerePolled-AreAwaited os w [] were all = tt
WerePolled-AreAwaited os w (e ∷ events) ((out, on, only), others, were) (clean, all) =
    (go out on only clean, others, WerePolled-AreAwaited os w events were all)
  where
    no_out : false ≡ true → ⊥
    no_out e = cc

    go :
        (out : Bool)
        → os.fd_state w e.fd ≡ polled out
        → (e.out ≡ true → out ≡ true)
        → (os.fd_state w e.fd ≡ polled true → e.out ≡ true)
        → os.fd_state w e.fd ≡ polled e.out
    go true on only clean = on ∙ ap polled (sym (clean on))
    go false on only clean = elim (Bool-cases e.out) [
      | inl writes ↦ absurd (no_out (only writes))
      | inr reads ↦ on ∙ ap polled (sym reads)
    ]

-- Events of other file descriptors.
other-AreAwaited :
    (os : Os) (fd : ℕ) (w w' : os.World) (events : List Event)
    → SameBut os fd w w'
    → IsOther fd events
    → AreAwaited os w events
    → AreAwaited os w' events
other-AreAwaited os fd w w' [] same others all = tt
other-AreAwaited os fd w w' (e ∷ events) same others all =
    (same e.fd others.0 ∙ all.0, all.1, other-AreAwaited os fd w w' events same others.1 all.2)

same-AreAwaited :
    (os : Os) (w w' : os.World) (events : List Event)
    → SameFds os w w'
    → AreAwaited os w events
    → AreAwaited os w' events
same-AreAwaited os w w' [] same all = tt
same-AreAwaited os w w' (e ∷ events) same all =
    (same e.fd ∙ all.0, all.1, same-AreAwaited os w w' events same all.2)

module _ (os : Os) (tracks : TracksFds os) (config : Config) (capacity : ℕ)
    (playable : IsPlayable config capacity) (calibration : Calibration) (mode : Mode)
    (clean : ConnectsCleanly os) where
  -- Something to read at the socket of a connection.
  ready-Plays :
      (e : Event) (i : ℕ) (s : Client) (w : os.World)
      → Plays os config capacity s w
      → e.out ≡ false
      → lookup e.fd s.runner.connection_list ≡ some (some i)
      → i < length s.runner.heap
      → Faultless
          (handle_event os calibration mode e s w)
          (λ t. Plays os config capacity t.0 t.1 × SameBut os e.fd w t.1)
  unfolding handle_event connection_at
  ready-Plays e i s w h reads known within =
      let r : Runner = s.runner in
      let at : connection_at e.fd r ≡ (some i, r) = ground (arith, known) in
      rw (reads, at)
        (Faultless->>= (Queue.push (some i) r.readable_socket_list) _ _ _
          (Safely-Faultless (Queue.push (some i) r.readable_socket_list) _
            (push-IsHeld _ (some i) _ h.inv.readable within))
          (λ q pushed. (
            record {
              inv = with_readable config.message_size r q h.inv pushed.0;
              timed = h.timed;
              fds = h.fds;
              sockets = h.sockets;
              fits = h.fits;
              connected = h.connected;
            },
            λ x ne. refl,
          )))

  writable-Plays :
      (e : Event) (s : Client) (w : os.World)
      → Plays os config capacity s w
      → e.out ≡ true
      → os.fd_state w e.fd ≡ polled true
      → Faultless
          (handle_event os calibration mode e s w)
          (λ t. Plays os config capacity t.0 t.1 × SameBut os e.fd w t.1)
  unfolding handle_event
  writable-Plays e s w h writes on =
      rw writes
        (connect_new_socket-Plays os tracks config capacity playable calibration mode e.fd s w h on)

  handle_event-Plays :
      (e : Event) (s : Client) (w : os.World)
      → Plays os config capacity s w
      → os.fd_state w e.fd ≡ polled e.out
      → Faultless
          (handle_event os calibration mode e s w)
          (λ t. Plays os config capacity t.0 t.1 × SameBut os e.fd w t.1)
  handle_event-Plays e s w h awaited = elim (Bool-cases e.out) [
    | inl writes ↦ writable-Plays e s w h writes (awaited ∙ ap polled writes)
    | inr reads ↦ elim (h.connected.linked.known e.fd e.out awaited) [
      | inl writes ↦ cc
      | inr k ↦ ready-Plays e k.i s w h reads k.found k.within
    ]
  ]

  handle_events-Plays :
      (events : List Event) (s : Client) (w : os.World)
      → Plays os config capacity s w
      → AreAwaited os w events
      → Faultless
          (handle_events os calibration mode events s w)
          (λ t. Plays os config capacity t.0 t.1)
  unfolding handle_events
  handle_events-Plays [] s w h all = h
  handle_events-Plays (e ∷ events) s w h all =
      Faultless->>= (handle_event os calibration mode e s w) _ _ _
        (handle_event-Plays e s w h all.0)
        (λ t kept.
          handle_events-Plays events t.0 t.1 kept.0
            (other-AreAwaited os e.fd w t.1 events kept.1 all.1 all.2))

  pub wait_events-Plays :
      (answer : Option (List Event)) (s : Client) (n : ℕ) (w w' : os.World)
      → Plays os config capacity s w
      → os.epoll_wait w n ≡ (answer, w')
      → Faultless
          (wait_events os calibration mode answer s w')
          (λ t. Plays os config capacity t.0 t.1)
  unfolding wait_events
  wait_events-Plays none s n w w' h e = tt
  wait_events-Plays (some events) s n w w' h e =
      let same : SameFds os w w' =
        subst (SameFds os w) (ap (λ (t : Option (List Event) × os.World). t.1) e)
          (tracks.wait_same w n) in
      handle_events-Plays events s w' (same-Plays os config capacity s w w' h same) (
        same-AreAwaited os w w' events same (
          WerePolled-AreAwaited os w events (tracks.wait_events w n events w' e)
            (clean.wait_writable w n events w' e)))
