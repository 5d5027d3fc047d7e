-- ===== src/Client/Sockets.antt =====
-- The connections of the client: one for each of its sockets, which is polled for what it receives.
-- A socket that is polled for `EPOLLOUT` is still connecting.
use native.Mathlib.Decide.{ℕ_discrete}
use latency_under_load.Prelude.{
  ℕ, ◌≡◌, ◌∙◌, sym, subst, refl, arith, some, Bool, true, List, [], ◌∷◌, get_elem?, set, length,
  length-set, get_elem?-set_self, get_elem?-set_ne, lt_of_get_elem?, Returns, after, Returns->>=,
  Returns-if, times-Returns,
}
use latency_under_load.Prelude.Int.{ℤ, ◌-ℤ◌}
use latency_under_load.Queue.{Queue}
use latency_under_load.Queue
use latency_under_load.CBuffer.{free_memory}
use latency_under_load.Config.{Config}
use latency_under_load.Connection.{
  Connection, alive, get_read_buffer, set_read_buffer, record_msg_rtt,
}
use latency_under_load.Ticks.{Calibration, Mode}
use latency_under_load.Ticks.Floating.{to_decimal_usec}
use latency_under_load.Runner.{Runner, deref}
use latency_under_load.Runner.Kept.{Frame, frame, IsStable, deref-Returns}
use latency_under_load.Runner.Mapped.{IsMapped}
use latency_under_load.Runner.Linked.{Linked, put-Linked, same-Linked}
use latency_under_load.Runner.Receive.{IsValidAt}
use latency_under_load.Client.{record_message, handle_connection_read}
use latency_under_load.Client.Loop.{handle_replies}
use latency_under_load.Client.Close.{AreOpen}
use latency_under_load.Os.{Os, SameFds, TracksFds}

abbrev pub IsConnecting : Bool → ℕ → Type 0
IsConnecting out fd = out ≡ true

pub record AreConnected (os : Os) (config : Config) (fds : List ℕ) (f : Frame os) : Type 0 where
  pub linked : Linked os IsConnecting f
  pub open_ones : AreOpen f.heap fds
  pub same_config : f.config ≡ config
  pub mapped : IsMapped (length f.heap) f.connection_list

-- A change of a connection that keeps its file descriptor and whether it is valid.
put-IsValidAt :
    (heap : List Connection) (i j fd : ℕ) (c c' : Connection)
    → IsValidAt heap j fd
    → get_elem? heap i ≡ some c
    → c'.fd ≡ c.fd
    → c'.valid ≡ c.valid
    → IsValidAt (set heap i c') j fd
put-IsValidAt heap i j fd c c' k at same valid = elim (ℕ_discrete i j) [
  | yes here ↦ record {
    c = c';
    at =
        subst (λ x. get_elem? (set heap i c') x ≡ some c') here
          (get_elem?-set_self heap i c' (lt_of_get_elem? heap i c at));
    valid = ground (arith, at, k.at, here, k.valid, valid);
    same_fd = ground (arith, at, k.at, here, k.same_fd, same);
  }
  | no apart ↦ record {
    c = k.c;
    at = get_elem?-set_ne heap i j c' apart ∙ k.at;
    valid = k.valid;
    same_fd = k.same_fd;
  }
]

put-AreOpen :
    (heap : List Connection) (i : ℕ) (c c' : Connection) (fds : List ℕ)
    → AreOpen heap fds
    → get_elem? heap i ≡ some c
    → c'.fd ≡ c.fd
    → c'.valid ≡ c.valid
    → AreOpen (set heap i c') fds
put-AreOpen heap i c c' [] h at same valid = tt
put-AreOpen heap i c c' (fd ∷ fds) h at same valid = (
  (h.0.0, put-IsValidAt heap i h.0.0 fd c c' h.0.1 at same valid),
  h.1,
  put-AreOpen heap i c c' fds h.2 at same valid,
)

module _ (os : Os) (config : Config) (fds : List ℕ) where
  pub put-AreConnected :
      (f : Frame os) (i : ℕ) (c c' : Connection)
      → AreConnected os config fds f
      → get_elem? f.heap i ≡ some c
      → c'.fd ≡ c.fd
      → c'.valid ≡ c.valid
      → AreConnected os config fds (record f { heap = set f.heap i c' })
  put-AreConnected f i c c' h at same valid = record {
    linked = put-Linked os IsConnecting f i c c' h.linked at same (λ live. sym valid ∙ live);
    open_ones = put-AreOpen f.heap i c c' fds h.open_ones at same valid;
    same_config = h.same_config;
    mapped = subst (λ n. IsMapped n f.connection_list) (sym (length-set f.heap i c')) h.mapped;
  }

  pub same-AreConnected :
      (f : Frame os) (w' : os.World)
      → AreConnected os config fds f
      → SameFds os f.world w'
      → AreConnected os config fds (record f { world = w' })
  same-AreConnected f w' h same = record {
    linked = same-Linked os IsConnecting f w' h.linked same;
    open_ones = h.open_ones;
    same_config = h.same_config;
    mapped = h.mapped;
  }

  pub connected-IsStable : TracksFds os → IsStable os (AreConnected os config fds)
  connected-IsStable tracks = record {
    other_buffers =
        λ f i c c' h at same. put-AreConnected f i c c' h at same.same_fd same.same_valid;
    received = λ f fd n h. same-AreConnected f _ h (tracks.recv_same f.world fd n);
    sent = λ f fd bytes h. same-AreConnected f _ h (tracks.send_same f.world fd bytes);
  }

  module _ (calibration : Calibration) (mode : Mode) where
    record_msg_rtt_same :
        (now : ℤ) (c : Connection)
        → Returns
            (record_msg_rtt calibration mode now c)
            (λ c'. (c'.fd ≡ c.fd) × (c'.valid ≡ c.valid))
    unfolding record_msg_rtt
    record_msg_rtt_same now c = after (alive c.unaknowledged_msgs) _ _ (λ sent.
        after (Queue.front sent) _ _ (λ start.
          after (to_decimal_usec calibration mode (record { ticks = now -ℤ start })) _ _ (λ rtt.
            after (alive c.msgs_rtt) _ _ (λ times.
              after (Queue.push rtt times) _ _
                (λ times'. after (Queue.pop sent) _ _ (λ sent'. (refl, refl)))))))

    record_message-AreConnected :
        (now : ℤ) (i : ℕ) (c : Connection) (r : Runner) (w : os.World)
        → AreConnected os config fds (frame os r w)
        → get_elem? r.heap i ≡ some c
        → Returns
            (record_message calibration mode now i c r)
            (λ r'. AreConnected os config fds (frame os r' w))
    unfolding record_message
    record_message-AreConnected now i c r w h at =
        Returns->>= (record_msg_rtt calibration mode now c) _ _ _ (record_msg_rtt_same now c)
          (λ c' same. after (get_read_buffer c') _ _ (λ b.
            put-AreConnected (frame os r w) i c (set_read_buffer (free_memory b) c') h at same.0
              same.1))

    handle_connection_read-AreConnected :
        TracksFds os
        → (r : Runner) (w : os.World) → AreConnected os config fds (frame os r w)
        → Returns
            (handle_connection_read os calibration mode r w)
            (λ t. AreConnected os config fds (frame os t.0 t.1))
    unfolding handle_connection_read
    handle_connection_read-AreConnected tracks r w h =
        after (Queue.front r.readable_connection_list) _ _ (λ p.
          after (Queue.pop r.readable_connection_list) _ _ (λ q.
            let r' : Runner = record r { readable_connection_list = q } in
            let now = os.current_ticks w in
            Returns->>= (deref p r') _ _ _ (deref-Returns p r') (λ t at.
              Returns-if t.1.valid _ _ _
                (Returns->>= (record_message calibration mode now.0 t.0 t.1 r') _ _ _
                  (record_message-AreConnected now.0 t.0 t.1 r' now.1
                    (same-AreConnected (frame os r w) now.1 h (tracks.ticks_same w)) at)
                  (λ r'' k. k))
                h)))

    pub handle_replies-AreConnected :
        TracksFds os
        → (r : Runner) (w : os.World) → AreConnected os config fds (frame os r w)
        → Returns
            (handle_replies os calibration mode r w)
            (λ t. AreConnected os config fds (frame os t.0 t.1))
    unfolding handle_replies
    handle_replies-AreConnected tracks r w h =
        times-Returns (λ t. AreConnected os config fds (frame os t.0 t.1)) _
          (λ t k. handle_connection_read-AreConnected tracks t.0 t.1 k)
          (Queue.size r.readable_connection_list) (r, w) h
