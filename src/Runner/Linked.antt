-- ===== src/Runner/Linked.antt =====
-- The connections of a runner and the file descriptors that are polled: each valid connection is
-- polled for what it receives, and what is polled is a connection of the map or is exempt.
use native.Mathlib.Decide.{ℕ_discrete}
use latency_under_load.Prelude.{
  ℕ, ◌<◌, ◌≡◌, refl, sym, ◌∙◌, ap, ◌≢◌, ◌⊎◌, inl, inr, some, Bool, true, false, List, arith, length,
  length-set, get_elem?, set, get_elem?-set_cases, Returns, Returns->>=, after,
}
use latency_under_load.Connection.{Connection, get_read_buffer, get_write_buffer}
use latency_under_load.Connection
use latency_under_load.Runner.{Runner, Pointer, lookup, deref, connection_at, remove_connection}
use latency_under_load.Runner.Add.{IsFresh}
use latency_under_load.Runner.Kept.{found_at-Returns, Frame, frame, IsStable}
use latency_under_load.Os.{Os, shut, idle, polled, SameFds, TracksFds}

-- The map leads from `x` to a connection.
pub record IsKnown (heap : List Connection) (entries : List (ℕ × Pointer)) (x : ℕ) : Type 0 where
  pub i : ℕ
  pub found : lookup x entries ≡ some (some i)
  pub within : i < length heap

pub record Linked (os : Os) (IsExempt : Bool → ℕ → Type 0) (f : Frame os) : Type 0 where
  pub opens :
      (i : ℕ) (c : Connection)
      → get_elem? f.heap i ≡ some c
      → c.valid ≡ true
      → os.fd_state f.world c.fd ≡ polled false
  pub listed :
      (i : ℕ) (c : Connection)
      → get_elem? f.heap i ≡ some c
      → c.valid ≡ true
      → lookup c.fd f.connection_list ≡ some (some i)
  pub known :
      (x : ℕ) (out : Bool)
      → os.fd_state f.world x ≡ polled out
      → IsExempt out x ⊎ IsKnown f.heap f.connection_list x

pub shut_apart : (out : Bool) → shut ≢ polled out
shut_apart out e = cc

pub idle_apart : (out : Bool) → idle ≢ polled out
idle_apart out e = cc

module _ (os : Os) (IsExempt : Bool → ℕ → Type 0) where
  -- A file descriptor that was not open is not that of a valid connection.
  pub Linked-IsFresh :
      (r : Runner) (w : os.World) (fd : ℕ)
      → Linked os IsExempt (frame os r w)
      → os.fd_state w fd ≡ shut
      → IsFresh fd r
  Linked-IsFresh r w fd h e i c at live same = ground (arith, h.opens i c at live, same, e)

  pub same-Linked :
      (f : Frame os) (w' : os.World)
      → Linked os IsExempt f
      → SameFds os f.world w'
      → Linked os IsExempt (record f { world = w' })
  same-Linked f w' h same = record {
    opens = λ i c at live. same c.fd ∙ h.opens i c at live;
    listed = h.listed;
    known = λ x out e. h.known x out (sym (same x) ∙ e);
  }

  kept_Known :
      (f : Frame os) (heap : List Connection) (x : ℕ) {out : Bool}
      → length heap ≡ length f.heap
      → IsExempt out x ⊎ IsKnown f.heap f.connection_list x
      → IsExempt out x ⊎ IsKnown heap f.connection_list x
  kept_Known f heap x e (inl exempt) = inl exempt
  kept_Known f heap x e (inr k) =
      inr (record { i = k.i; found = k.found; within = omega (arith, k.within, e) })

  -- A change of a connection that keeps its file descriptor, and does not make it valid.
  pub put-Linked :
      (f : Frame os) (i : ℕ) (c c' : Connection)
      → Linked os IsExempt f
      → get_elem? f.heap i ≡ some c
      → c'.fd ≡ c.fd
      → (c'.valid ≡ true → c.valid ≡ true)
      → Linked os IsExempt (record f { heap = set f.heap i c' })
  put-Linked f i c c' h at same alive = record {
    opens = λ j d e live. elim (get_elem?-set_cases f.heap i j c' d e) [
      | inl (here, is) ↦
          rw (is, same) (h.opens i c at (alive (ap (λ (x : Connection). x.valid) (sym is) ∙ live)))
      | inr (_, old) ↦ h.opens j d old live
    ];
    listed = λ j d e live. elim (get_elem?-set_cases f.heap i j c' d e) [
      | inl (here, is) ↦
          rw (is, same, here)
            (h.listed i c at (alive (ap (λ (x : Connection). x.valid) (sym is) ∙ live)))
      | inr (_, old) ↦ h.listed j d old live
    ];
    known = λ x out e. kept_Known f (set f.heap i c') x (length-set f.heap i c') (h.known x out e);
  }

  pub Linked-IsStable : TracksFds os → IsStable os (Linked os IsExempt)
  Linked-IsStable tracks = record {
    other_buffers = λ f i c c' h at same.
        put-Linked f i c c' h at same.same_fd (λ live. sym same.same_valid ∙ live);
    received = λ f fd n h. same-Linked f _ h (tracks.recv_same f.world fd n);
    sent = λ f fd bytes h. same-Linked f _ h (tracks.send_same f.world fd bytes);
  }

  module _ (tracks : TracksFds os) where
    -- A connection that is removed is not polled any more, and its file descriptor is closed.
    removed-Linked :
        (fd i : ℕ) (f : Frame os) (gone : Connection)
        → Linked os IsExempt f
        → lookup fd f.connection_list ≡ some (some i)
        → gone.valid ≡ false
        → Linked os IsExempt (record f {
          heap = set f.heap i gone;
          world = (os.close (os.epoll_del f.world fd).1 fd).1;
        })
    removed-Linked fd i f gone h at dead =
        let (stops, same) = tracks.del_stops f.world fd in
        let (shuts, same') = tracks.close_shuts (os.epoll_del f.world fd).1 fd in
        record {
          opens = λ j d e live. elim (get_elem?-set_cases f.heap i j gone d e) [
            | inl (here, is) ↦ cc
            | inr (apart, old) ↦
                let ne : d.fd ≢ fd =
                  λ same_fd. apart (ground (arith, h.listed j d old live, at, same_fd)) in
                same' d.fd ne ∙ same d.fd ne ∙ h.opens j d old live
          ];
          listed = λ j d e live. elim (get_elem?-set_cases f.heap i j gone d e) [
            | inl (here, is) ↦ cc
            | inr (apart, old) ↦ h.listed j d old live
          ];
          known = λ x out e. elim (ℕ_discrete x fd) [
            | yes here ↦ absurd (shut_apart out (sym shuts ∙ ap (os.fd_state _) (sym here) ∙ e))
            | no ne ↦
                kept_Known f (set f.heap i gone) x (length-set f.heap i gone)
                  (h.known x out (sym (same x ne) ∙ sym (same' x ne) ∙ e))
          ];
        }

    gone-Returns :
        (c : Connection) → Returns (Connection.remove_connection c) (λ g. g.valid ≡ false)
    unfolding Connection.remove_connection
    gone-Returns c =
        after (get_read_buffer c) _ _ (λ b. after (get_write_buffer c) _ _ (λ b'. refl))

    pub remove_connection-Linked :
        (fd : ℕ) (r : Runner) (w : os.World)
        → Linked os IsExempt (frame os r w)
        → Returns (remove_connection os fd r w) (λ t. Linked os IsExempt (frame os t.0 t.1))
    unfolding remove_connection
    remove_connection-Linked fd r w h =
        Returns->>= (deref (connection_at fd r).0 (connection_at fd r).1) _ _ _
          (found_at-Returns fd r)
          (λ t found.
            Returns->>= (Connection.remove_connection t.1) _ _ _ (gone-Returns t.1)
              (λ gone dead. rw found.2 (removed-Linked fd t.0 (frame os r w) gone h found.1 dead)))
