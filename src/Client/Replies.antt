-- ===== src/Client/Replies.antt =====
-- The loop of the client over the complete messages.
use native.Mathlib.Decide.{dec_lt}
use latency_under_load.Prelude.{
  ℕ, suc, ◌+◌, ◌<◌, ◌≡◌, refl, ◌∙◌, inl, inr, some, true, List, [], ◌∷◌, arith, length, length-set,
  get_elem?, get_elem?-set_cases, subst, sym, err, no_space, no_elements, Faultless, Faultless->>=,
  Faultless-mono, times-Faultless, Bool-cases, ap, set,
}
use latency_under_load.Prelude.Int.{ℤ, ◌-ℤ◌}
use latency_under_load.Queue.{Queue, size}
use latency_under_load.Queue.Refine.{front-Represents, front-nil, push-full}
use latency_under_load.Connection.{Connection, record_msg_rtt}
use latency_under_load.Connection.Times.{HasTimes, IsTimed}
use latency_under_load.Ticks.{Calibration, Mode, IsCounting}
use latency_under_load.Ticks.Floating.{to_decimal_usec_lem}
use latency_under_load.Runner.{Runner, Pointer}
use latency_under_load.Runner.Inv.{Inv, IsHeld-Popped, with_complete, deref_lem}
use latency_under_load.Client.{record_message, handle_connection_read}
use latency_under_load.Client.Loop.{handle_replies}
use latency_under_load.Client.Times.{record_message_lem}
use latency_under_load.Os.{Os}

-- All connections of the heap have their queues.
abbrev pub AreTimed : List Connection → Type 0
AreTimed heap = (i : ℕ) (c : Connection) → get_elem? heap i ≡ some c → IsTimed c

pub set-AreTimed :
    (heap : List Connection) (i : ℕ) (c : Connection)
    → AreTimed heap
    → IsTimed c
    → AreTimed (set heap i c)
set-AreTimed heap i c all timed j d at = elim (get_elem?-set_cases heap i j c d at) [
  | inl (_, same) ↦ subst IsTimed (sym same) timed
  | inr (_, old) ↦ all j d old
]

module _ (m : ℕ) (calibration : Calibration) (mode : Mode)
    (counting : IsCounting calibration mode) where
  -- What a reply leaves.
  abbrev Recorded : Runner → Runner → Type 0
  Recorded r r' =
      Inv m r'
      × AreTimed r'.heap
      × (length r'.heap ≡ length r.heap)
      × (r'.readable_connection_list ≡ r.readable_connection_list)

  record_message-Faultless :
      (now : ℤ) (i : ℕ) (c : Connection) (r : Runner)
      → Inv m r
      → AreTimed r.heap
      → get_elem? r.heap i ≡ some c
      → c.valid ≡ true
      → (waiting rtts : List ℤ) → HasTimes c waiting rtts
      → Faultless (record_message calibration mode now i c r) (Recorded r)
  unfolding record_message record_msg_rtt
  record_message-Faultless now i c r v all at valid [] rtts h =
      let nothing : record_message calibration mode now i c r ≡ err no_elements =
        ground (arith, h.sent_is, front-nil h.sent h.sent_list) in
      rw nothing tt
  record_message-Faultless now i c r v all at valid (start ∷ waiting) rtts h =
      elim (dec_lt (length rtts) h.times.max_queue_size) [
        | yes room ↦
            let (_, _, c', e, inv, timed) =
              record_message_lem m calibration mode now i c r v at valid counting start waiting rtts
                h room in
            rw e
              (inv, set-AreTimed r.heap i c' all (waiting, _, timed), length-set r.heap i c', refl)
        | no full ↦
            let (rtt, converted) =
              to_decimal_usec_lem calibration mode (record { ticks = now -ℤ start }) counting in
            let thrown : record_message calibration mode now i c r ≡ err no_space = ground (
              arith,
              h.sent_is,
              h.times_is,
              converted,
              front-Represents h.sent start waiting h.sent_list,
              push-full rtt h.times rtts h.times_list (omega arith),
            ) in
            rw thrown tt
      ]

  module _ (os : Os) where
    handle_connection_read-Faultless :
        (r : Runner) (w : os.World)
        → Inv m r
        → AreTimed r.heap
        → 0 < r.readable_connection_list.queue_size
        → Faultless (handle_connection_read os calibration mode r w) (λ t.
          Inv m t.0
          × AreTimed t.0.heap
          × (length t.0.heap ≡ length r.heap)
          × (t.0.readable_connection_list.queue_size + 1 ≡ r.readable_connection_list.queue_size))
    unfolding handle_connection_read
    handle_connection_read-Faultless r w v all some_entry =
        let h = IsHeld-Popped (length r.heap) r.readable_connection_list v.complete some_entry in
        let r' : Runner = record r { readable_connection_list = h.rest } in
        let v' = with_complete m r h.rest v h.rest_held in
        let (i, c, ep, at, ed) = deref_lem r' h.p h.points in
        let now = (os.current_ticks w).0 in
        rw (h.fronts, h.pops, ed)
          (elim (Bool-cases c.valid) [
            | inl live ↦
                let (waiting, rtts, timed) = all i c at in
                rw live (
                  Faultless->>= (record_message calibration mode now i c r') _ _ _
                    (record_message-Faultless now i c r' v' all at live waiting rtts timed)
                    (λ r'' q.
                      (q.0, q.1, q.2, ap (λ (x : Queue Pointer). x.queue_size + 1) q.3 ∙ h.fewer)))
            | inr dead ↦ rw dead (v', all, refl, h.fewer)
          ])

    -- From a runner in its invariant whose connections have their queues for times: the loop over
    -- the complete messages makes no access outside an object, whatever replies have come. Unless a
    -- throw ends it, it keeps all of this and leaves no complete message in its queue.
    pub handle_replies-Faultless :
        (r : Runner) (w : os.World)
        → Inv m r
        → AreTimed r.heap
        → Faultless (handle_replies os calibration mode r w) (λ t.
          Inv m t.0
          × AreTimed t.0.heap
          × (length t.0.heap ≡ length r.heap)
          × (t.0.readable_connection_list.queue_size ≡ 0))
    unfolding handle_replies size
    handle_replies-Faultless r w v all =
        times-Faultless I _ keep r.readable_connection_list.queue_size (r, w) (v, all, refl, refl)
      where
        I : ℕ → Runner × os.World → Type 0
        I n s =
            Inv m s.0
            × AreTimed s.0.heap
            × (length s.0.heap ≡ length r.heap)
            × (s.0.readable_connection_list.queue_size ≡ n)

        keep :
            (n : ℕ) (s : Runner × os.World)
            → I (suc n) s
            → Faultless (handle_connection_read os calibration mode s.0 s.1) (I n)
        keep n s (inv, timed, same, left) =
            Faultless-mono (handle_connection_read os calibration mode s.0 s.1) _ (I n)
              (handle_connection_read-Faultless s.0 s.1 inv timed (omega arith))
              (λ t h. (h.0, h.1, h.2 ∙ same, omega (arith, h.3)))
