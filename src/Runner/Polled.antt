-- ===== src/Runner/Polled.antt =====
-- A file descriptor that is opened, polled, not polled any more, or that gets a connection.
use native.Mathlib.Decide.{ℕ_discrete}
use latency_under_load.Prelude.{
  subst, ℕ, ◌≡◌, refl, sym, ◌∙◌, ap, ◌≢◌, inl, inr, some, Bool, true, false, arith, length,
  get_elem?-append_cases, ok, ◌>>=◌, Returns,
}
use latency_under_load.Connection.{new_connection}
use latency_under_load.Runner.{Runner, check, add_new_connection}
use latency_under_load.Runner.Add.{lookup-insert, grown, length-grown}
use latency_under_load.Runner.Kept.{Frame, frame}
use latency_under_load.Runner.Linked.{Linked, shut_apart, idle_apart}
use latency_under_load.Os.{Os, polled, SameBut, Opens, TracksFds}

module _ (os : Os) (IsExempt : Bool → ℕ → Type 0) where
  -- A file descriptor that is opened is not polled yet.
  pub opened-Linked :
      (fd : ℕ) (f : Frame os) (w' : os.World)
      → Linked os IsExempt f
      → Opens os fd f.world w'
      → Linked os IsExempt (record f { world = w' })
  opened-Linked fd f w' h (closed, opened, same) = record {
    opens = λ i c at live.
        same c.fd (λ here.
          shut_apart false (sym closed ∙ ap (os.fd_state f.world) (sym here) ∙ h.opens i c at live))
        ∙ h.opens i c at live;
    listed = h.listed;
    known = λ x out e. elim (ℕ_discrete x fd) [
      | yes here ↦ absurd (idle_apart out (sym opened ∙ ap (os.fd_state w') (sym here) ∙ e))
      | no ne ↦ h.known x out (sym (same x ne) ∙ e)
    ];
  }

  -- One that is exempt may be polled.
  pub polled-Linked :
      (fd : ℕ) (out : Bool) (f : Frame os) (w' : os.World)
      → Linked os IsExempt f
      → IsExempt out fd
      → os.fd_state f.world fd ≢ polled false
      → os.fd_state w' fd ≡ polled out
      → SameBut os fd f.world w'
      → Linked os IsExempt (record f { world = w' })
  polled-Linked fd out f w' h exempt off on same = record {
    opens = λ i c at live.
        same c.fd (λ here. off (ap (os.fd_state f.world) (sym here) ∙ h.opens i c at live))
        ∙ h.opens i c at live;
    listed = h.listed;
    known = λ x out' e. elim (ℕ_discrete x fd) [
      | yes here ↦
          inl
            (subst (λ o. IsExempt o x) (cc (on, e, here)) (subst (IsExempt out) (sym here) exempt))
      | no ne ↦ h.known x out' (sym (same x ne) ∙ e)
    ];
  }

  -- One that is not that of a connection may stop being polled.
  pub stopped-Linked :
      (fd : ℕ) (f : Frame os) (w' : os.World)
      → Linked os IsExempt f
      → os.fd_state f.world fd ≢ polled false
      → ((out : Bool) → os.fd_state w' fd ≢ polled out)
      → SameBut os fd f.world w'
      → Linked os IsExempt (record f { world = w' })
  stopped-Linked fd f w' h off stops same = record {
    opens = λ i c at live.
        same c.fd (λ here. off (ap (os.fd_state f.world) (sym here) ∙ h.opens i c at live))
        ∙ h.opens i c at live;
    listed = h.listed;
    known = λ x out e. elim (ℕ_discrete x fd) [
      | yes here ↦ absurd (stops out (ap (os.fd_state w') (sym here) ∙ e))
      | no ne ↦ h.known x out (sym (same x ne) ∙ e)
    ];
  }

  module _ (tracks : TracksFds os) where
    -- The state with one more connection.
    added-Linked :
        (fd : ℕ) (r : Runner) (w w' : os.World)
        → Linked os IsExempt (frame os r w)
        → ((out : Bool) → os.fd_state w fd ≢ polled out)
        → os.fd_state w' fd ≡ polled false
        → SameBut os fd w w'
        → Linked os IsExempt (frame os (grown fd r) w')
    unfolding new_connection
    added-Linked fd r w w' h off on same = record {
      opens = λ j d e live. elim (get_elem?-append_cases r.heap _ j d e) [
        | inl (_, is) ↦ rw is on
        | inr old ↦
            let ne : d.fd ≢ fd =
              λ here. off false (ap (os.fd_state w) (sym here) ∙ h.opens j d old live) in
            same d.fd ne ∙ h.opens j d old live
      ];
      listed = λ j d e live. elim (get_elem?-append_cases r.heap _ j d e) [
        | inl (here, is) ↦
            rw (is, here)
              (ground (arith, lookup-insert fd fd (some (length r.heap)) r.connection_list))
        | inr old ↦
            let ne : d.fd ≢ fd =
              λ here. off false (ap (os.fd_state w) (sym here) ∙ h.opens j d old live) in
            ground (
              arith,
              lookup-insert fd d.fd (some (length r.heap)) r.connection_list,
              ne,
              h.listed j d old live,
            )
      ];
      known = λ x out e. elim (ℕ_discrete x fd) [
        | yes here ↦ inr (record {
          i = length r.heap;
          found =
              rw here
                (ground (arith, lookup-insert fd fd (some (length r.heap)) r.connection_list));
          within = omega (arith, length-grown fd r);
        })
        | no ne ↦ elim (h.known x out (sym (same x ne) ∙ e)) [
          | inl exempt ↦ inl exempt
          | inr k ↦ inr (record {
            i = k.i;
            found =
                ground
                  (arith, lookup-insert fd x (some (length r.heap)) r.connection_list, k.found, ne);
            within = omega (arith, k.within, length-grown fd r);
          })
        ]
      ];
    }

    pub add_new_connection-Linked :
        (fd : ℕ) (r : Runner) (w : os.World)
        → Linked os IsExempt (frame os r w)
        → ((out : Bool) → os.fd_state w fd ≢ polled out)
        → Returns
            (add_new_connection os fd r w)
            (λ t. Linked os IsExempt (frame os t.0 t.1) × SameBut os fd w t.1)
    unfolding add_new_connection
    add_new_connection-Linked fd r w h off =
        added (os.epoll_add w fd false).0 (os.epoll_add w fd false).1 refl
      where
        added :
            (b : Bool) (w' : os.World)
            → os.epoll_add w fd false ≡ (b, w')
            → Returns {A = Runner × os.World}
                (check os (b, w') >>= λ w''. ok (grown fd r, w''))
                (λ t. Linked os IsExempt (frame os t.0 t.1) × SameBut os fd w t.1)
        added false w' e = tt
        added true w' e =
            let (on, same) = tracks.add_polls w fd false w' e in
            (added-Linked fd r w w' h off on same, same)
