-- ===== src/Server/Events.antt =====
-- The events of the server: of the listening socket, and of its connections.
use latency_under_load.Prelude.{
  ℕ, ◌*◌, ◌<◌, ◌≡◌, refl, sym, ap, ◌∙◌, ◌≢◌, inl, inr, some, none, Option, Bool, List, [], ◌∷◌,
  Returns, Returns->>=, Returns-if, Returns-mono, after, subst, ne→==_false, Safely, Safely->>=,
  Safely-mono, Safely-Returns, ltb, ==_iff, u32_mod, arith,
}
use native.Mathlib.Decide.{ℕ_discrete}
use latency_under_load.CBuffer.{max_queued_massage}
use latency_under_load.Queue
use latency_under_load.Runner.{Runner, lookup, connection_at, add_new_connection, set_socket_option}
use latency_under_load.Runner.Inv.{Inv}
use latency_under_load.Runner.Kept.{frame}
use latency_under_load.Runner.Linked.{shut_apart, idle_apart, same-Linked, Linked-IsFresh}
use latency_under_load.Runner.Polled.{opened-Linked, add_new_connection-Linked}
use latency_under_load.Runner.Options.{set_socket_option_same}
use latency_under_load.Server.Linked.{AreLinked}
use latency_under_load.Server.Loop.{
  unless_again, accept_connection, handle_event, handle_events, wait_events,
}
use latency_under_load.Server.Run.{ready-Safely, accept-Safely}
use latency_under_load.Os.{
  Os, Event, Accepted, conn, not_accepted, Errno, eagain, econnreset, ebadf, einprogress, other,
  polled, SameFds, SameBut, WerePolled, TracksFds,
}

module _ (os : Os) where
  -- What is polled stays so.
  abbrev pub StayPolled : os.World → os.World → Type 0
  StayPolled w w' =
      (x : ℕ) (out : Bool) → os.fd_state w x ≡ polled out → os.fd_state w' x ≡ polled out

  pub StayPolled-WerePolled :
      (w w' : os.World) (events : List Event)
      → StayPolled w w'
      → WerePolled os w events
      → WerePolled os w' events
  StayPolled-WerePolled w w' [] stay all = tt
  StayPolled-WerePolled w w' (e ∷ events) stay all = (
    (all.0.0, stay e.fd all.0.0 all.0.1, all.0.2),
    all.1,
    StayPolled-WerePolled w w' events stay all.2,
  )

  SameBut-StayPolled :
      (fd : ℕ) (w w' : os.World)
      → ((out : Bool) → os.fd_state w fd ≢ polled out)
      → SameBut os fd w w'
      → StayPolled w w'
  SameBut-StayPolled fd w w' off same x out e =
      same x (λ here. off out (ap (os.fd_state w) (sym here) ∙ e)) ∙ e

module _ (os : Os) (tracks : TracksFds os) (IsExempt : Bool → ℕ → Type 0) where
  again-Returns :
      (e : Errno) (r : Runner) (w : os.World) (P : Runner × os.World → Type 0)
      → P (r, w)
      → Returns (unless_again os e r w) P
  unfolding unless_again
  again-Returns eagain r w P h = h
  again-Returns econnreset r w P h = tt
  again-Returns ebadf r w P h = tt
  again-Returns einprogress r w P h = tt
  again-Returns other r w P h = tt

  accept-Linked :
      (lfd : ℕ) (r : Runner) (w : os.World) (reply : Accepted) (w' : os.World)
      → AreLinked os tracks IsExempt r w
      → os.accept w lfd ≡ (reply, w')
      → Returns
          (accept_connection os reply r w')
          (λ t. AreLinked os tracks IsExempt t.0 t.1 × StayPolled os w t.1)
  unfolding accept_connection
  accept-Linked lfd r w (conn fd before) w' h e =
      let opening = tracks.accept_opens w lfd fd before w' e in
      let h' = opened-Linked os IsExempt fd (frame os r w) w' h opening in
      let stay : StayPolled os w w' =
        SameBut-StayPolled os fd w w' (λ out e'. shut_apart out (sym opening.0 ∙ e')) opening.2 in
      Returns-if (ltb 0 fd) _ _ _
        (Returns->>= (set_socket_option os r.config fd w') _ (SameFds os w') _
          (set_socket_option_same os tracks r.config fd w')
          (λ w'' same.
            let off : (out : Bool) → os.fd_state w'' fd ≢ polled out =
              λ out e'. idle_apart out (sym opening.1 ∙ sym (same fd) ∙ e') in
            Returns-mono (add_new_connection os fd r w'') _ _
              (add_new_connection-Linked os IsExempt tracks fd r w''
                (same-Linked os IsExempt (frame os r w') w'' h' same) off)
              (λ t kept. (
                kept.0,
                λ x out e'.
                    SameBut-StayPolled os fd w'' t.1 off kept.1 x out (same x ∙ stay x out e'),
              ))))
        (again-Returns before r w' _ (h', stay))
  accept-Linked lfd r w (not_accepted e') w' h e =
      let same = tracks.accept_same w lfd e' w' e in
      again-Returns e' r w' _
        (same-Linked os IsExempt (frame os r w) w' h same, λ x out p. same x ∙ p)

module _ (os : Os) (tracks : TracksFds os) (m lfd : ℕ) (some_bytes : 0 < m)
    (small : m * max_queued_massage < u32_mod) where
  -- Nothing but connections and the listening socket is polled.
  abbrev pub Serves : Runner → os.World → Type 0
  Serves r w = Inv m r × AreLinked os tracks (λ out x. x ≡ lfd) r w

  refused-Safely :
      (e : Errno) (r : Runner) (w : os.World)
      → Inv m r
      → Safely (unless_again os e r w) (λ t. Inv m t.0)
  unfolding unless_again
  refused-Safely eagain r w v = v
  refused-Safely econnreset r w v = tt
  refused-Safely ebadf r w v = tt
  refused-Safely einprogress r w v = tt
  refused-Safely other r w v = tt

  listening-Linked :
      (e : Event) (r : Runner) (w : os.World)
      → Serves r w
      → e.fd ≡ lfd
      → Returns
          (handle_event os lfd e r w)
          (λ t. AreLinked os tracks (λ out x. x ≡ lfd) t.0 t.1 × StayPolled os w t.1)
  unfolding handle_event
  listening-Linked e r w h here =
      rw ((==_iff e.fd lfd).1 here) (accept-Linked os tracks _ lfd r w _ _ h.1 refl)

  ready-Linked :
      (e : Event) (i : ℕ) (r : Runner) (w : os.World)
      → Serves r w
      → e.fd ≢ lfd
      → lookup e.fd r.connection_list ≡ some (some i)
      → Returns
          (handle_event os lfd e r w)
          (λ t. AreLinked os tracks (λ out x. x ≡ lfd) t.0 t.1 × StayPolled os w t.1)
  unfolding handle_event connection_at
  ready-Linked e i r w h apart known =
      let at : connection_at e.fd r ≡ (some i, r) = ground (arith, known) in
      rw (ne→==_false e.fd lfd apart, at)
        (after (Queue.push (some i) r.readable_socket_list) _ _ (λ q. (h.1, λ x out p. p)))

  refused-Inv :
      (e : Event) (x : Errno) (r : Runner) (w : os.World)
      → Inv m r
      → e.fd ≡ lfd
      → (os.accept w lfd).0 ≡ not_accepted x
      → Safely (handle_event os lfd e r w) (λ t. Inv m t.0)
  unfolding handle_event accept_connection
  refused-Inv e x r w v here hands = rw ((==_iff e.fd lfd).1 here, hands) (refused-Safely x r _ v)

  listening-Inv :
      (e : Event) (r : Runner) (w : os.World) (reply : Accepted) (w' : os.World)
      → Serves r w
      → e.fd ≡ lfd
      → os.accept w lfd ≡ (reply, w')
      → Safely (handle_event os lfd e r w) (λ t. Inv m t.0)
  listening-Inv e r w (conn fd before) w' h here hands =
      let opening = tracks.accept_opens w lfd fd before w' hands in
      accept-Safely m os lfd fd before e r w h.0 here (ap (λ (t : Accepted × os.World). t.0) hands)
        (Linked-IsFresh os _ r w fd h.1 opening.0) some_bytes small
  listening-Inv e r w (not_accepted x) w' h here hands =
      refused-Inv e x r w h.0 here (ap (λ (t : Accepted × os.World). t.0) hands)

  handle_event-Serves :
      (e : Event) (out : Bool) (r : Runner) (w : os.World)
      → Serves r w
      → os.fd_state w e.fd ≡ polled out
      → Safely (handle_event os lfd e r w) (λ t. Serves t.0 t.1 × StayPolled os w t.1)
  handle_event-Serves e out r w h awaited = elim (ℕ_discrete e.fd lfd) [
    | yes here ↦ both (
        Safely-Returns (handle_event os lfd e r w) _ _ (listening-Inv e r w _ _ h here refl)
          (listening-Linked e r w h here))
    | no apart ↦ elim (h.1.known e.fd out awaited) [
      | inl here ↦ absurd (apart here)
      | inr k ↦ both (
          Safely-Returns (handle_event os lfd e r w) _ _
            (ready-Safely m os lfd k.i e r w h.0 apart k.found k.within)
            (ready-Linked e k.i r w h apart k.found))
    ]
  ]
    where
      both :
          Safely (handle_event os lfd e r w) (λ t.
            Inv m t.0 × (AreLinked os tracks (λ out x. x ≡ lfd) t.0 t.1 × StayPolled os w t.1))
          → Safely (handle_event os lfd e r w) (λ t. Serves t.0 t.1 × StayPolled os w t.1)
      both k = Safely-mono (handle_event os lfd e r w) _ _ k (λ t q. ((q.0, q.1.0), q.1.1))

  handle_events-Serves :
      (events : List Event) (r : Runner) (w : os.World)
      → Serves r w
      → WerePolled os w events
      → Safely (handle_events os lfd events r w) (λ t. Serves t.0 t.1)
  unfolding handle_events
  handle_events-Serves [] r w h all = h
  handle_events-Serves (e ∷ events) r w h all =
      Safely->>= (handle_event os lfd e r w) _ _ _ (handle_event-Serves e all.0.0 r w h all.0.1)
        (λ t kept.
          handle_events-Serves events t.0 t.1 kept.0
            (StayPolled-WerePolled os w t.1 events kept.1 all.2))

  pub wait_events-Serves :
      (answer : Option (List Event)) (r : Runner) (w w' : os.World)
      → Serves r w
      → os.epoll_wait w (max_queued_massage * r.config.number_connection) ≡ (answer, w')
      → Safely (wait_events os lfd answer r w') (λ t. Serves t.0 t.1)
  unfolding wait_events
  wait_events-Serves none r w w' h e = tt
  wait_events-Serves (some events) r w w' h e =
      let n = max_queued_massage * r.config.number_connection in
      let same : SameFds os w w' =
        subst (SameFds os w) (ap (λ (t : Option (List Event) × os.World). t.1) e)
          (tracks.wait_same w n) in
      handle_events-Serves events r w' (h.0, same-Linked os _ (frame os r w) w' h.1 same)
        (StayPolled-WerePolled os w w' events (λ x out p. same x ∙ p)
          (tracks.wait_events w n events w' e))
