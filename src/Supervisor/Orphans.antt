-- ===== src/Supervisor/Orphans.antt =====
-- crates/lunatic-otp-patterns/src/supervisor.rs: no child outlives the process of its supervisor.
use lunatic.Prelude.{
  ℕ, ◌≡◌, ◌≢◌, inl, inr, refl, ap, sym, ◌∙◌, subst, List, [], ◌∷◌, none, some, true, arith, is_some,
  contains, ◌==◌, ==_refl, ==→eq, Bool-cases, Option-cases, reverse,
}
use lunatic.Supervisor.{
  ChildSpec, ChildState, Supervisor, SupervisorSpec, Error, Runtime, find_spec, child_process, held,
  refresh_cleanup_tracker, clear_process, install,
}
use lunatic.Supervisor.Restarts.{child_ids, start_children, handle_process_exit, shutdown}
use lunatic.Supervisor.Process.{
  Event, shutdown_requested, other_message, process_died, Progress, waiting, returned, failed,
  failed_twice, with_environment, escalate, supervise, supervisor_process, dropped_guard,
}
use lunatic.Supervisor.Tracker.{Moves, stay, cleared, installed, counted, IsSound, Moves-IsSound}
use lunatic.Supervisor.Moving.{start_children-Moves, handle_process_exit-Moves, shutdown-Moves}
use lunatic.Supervisor.Effects.{shutdown-stops, contains-reverse}

tracker_kept :
    (s t : Supervisor) → Moves s t → is_some t.cleanup_tracker ≡ is_some s.cleanup_tracker
unfolding refresh_cleanup_tracker clear_process install
tracker_kept s _ stay = refl
tracker_kept s _ (cleared {t = t} id m) = ground (arith, tracker_kept s t m)
tracker_kept s _ (installed {t = t} id process spec is_restart its m) =
    ground (arith, tracker_kept s t m)
tracker_kept s _ (counted {t = t} events m) = tracker_kept s t m

spec_kept : (s t : Supervisor) → Moves s t → t.spec ≡ s.spec
unfolding refresh_cleanup_tracker clear_process install
spec_kept s _ stay = refl
spec_kept s _ (cleared {t = t} id m) = ground (arith, spec_kept s t m)
spec_kept s _ (installed {t = t} id process spec is_restart its m) = ground (arith, spec_kept s t m)
spec_kept s _ (counted {t = t} events m) = spec_kept s t m

contains-child_ids :
    (id : ℕ) (cs : List ChildSpec) → contains id (child_ids cs) ≡ is_some (find_spec id cs)
unfolding contains child_ids find_spec
contains-child_ids id [] = refl
contains-child_ids id (c ∷ cs) = ground (arith, contains-child_ids id cs)

held-contains :
    (id p : ℕ) (cs : List ChildSpec) (children : List (ℕ × ChildState))
    → child_process id children ≡ some p
    → is_some (find_spec id cs) ≡ true
    → contains p (held cs children) ≡ true
unfolding contains held find_spec
held-contains id p [] children has h = absurd (ground (arith, h))
held-contains id p (c ∷ cs) children has h = elim (Bool-cases (c.id == id)) [
  | inl same ↦
      let here = subst (λ i. child_process i children ≡ some p) (sym (==→eq c.id id same)) has in
      rw (here, held) (ground (arith, ==_refl p))
  | inr other ↦
      let later = held-contains id p cs children has (ground (arith, h, other)) in
      elim (Option-cases (child_process c.id children)) [
        | inl idle ↦ rw (idle, held) later
        | inr (q, busy) ↦ rw (busy, held) (ground (arith, later))
      ]
]

-- A child that has a process is of the specification.
held_known :
    (s : Supervisor) (id p : ℕ)
    → IsSound s
    → child_process id s.children ≡ some p
    → is_some (find_spec id s.spec.children) ≡ true
unfolding child_process
held_known s id p sound has = sound.known id (ground (arith, has))

tracked_child :
    (s : Supervisor) (id p : ℕ) (ps : List ℕ)
    → IsSound s
    → s.cleanup_tracker ≡ some ps
    → child_process id s.children ≡ some p
    → contains p (reverse ps) ≡ true
tracked_child s id p ps sound e has =
    contains-reverse p ps
    ∙ rw (sound.tracked ps e)
        (held-contains id p s.spec.children s.children has (held_known s id p sound has))

-- Where a process returned, it left no child a process.
abbrev LeavesNone : {W : Type 0} → Progress × Supervisor × W → Type 0
LeavesNone r = r.0 ≡ returned → (id : ℕ) → child_process id r.1.children ≡ none

guarded_in :
    (progress : Progress) (s : Supervisor) (p : ℕ) (ps : List ℕ)
    → s.cleanup_tracker ≡ some ps
    → (progress ≢ returned)
    → contains p (reverse ps) ≡ true
    → contains p (dropped_guard progress s) ≡ true
unfolding dropped_guard
guarded_in returned s p ps e ended h = absurd (ended refl)
guarded_in waiting s p ps e ended h = rw (e, dropped_guard) h
guarded_in (failed cause) s p ps e ended h = rw (e, dropped_guard) h
guarded_in (failed_twice cause other) s p ps e ended h = rw (e, dropped_guard) h

guarded_child :
    (progress : Progress) (s : Supervisor) (id p : ℕ)
    → IsSound s
    → is_some s.cleanup_tracker ≡ true
    → (progress ≡ returned → child_process id s.children ≡ none)
    → child_process id s.children ≡ some p
    → contains p (dropped_guard progress s) ≡ true
guarded_child progress s id p sound tracks leaves has = elim (Option-cases s.cleanup_tracker) [
  | inl untracked ↦ absurd (ground (arith, untracked, tracks))
  | inr (ps, e) ↦
      guarded_in progress s p ps e (λ done. absurd (ground (arith, leaves done, has)))
        (tracked_child s id p ps sound e has)
]

module _ {W : Type 0} (runtime : Runtime W) where
  shutdown-LeavesNone :
      (s : Supervisor) (w : W)
      → IsSound s
      → (shutdown runtime s w).0 ≡ none
      → (id : ℕ) → child_process id (shutdown runtime s w).1.children ≡ none
  unfolding child_process
  shutdown-LeavesNone s w sound fine id =
      let after = shutdown runtime s w in
      let moves = shutdown-Moves runtime s s w stay in
      let sound' = Moves-IsSound s after.1 sound moves in
      elim (Option-cases (child_process id after.1.children)) [
        | inl idle ↦ idle
        | inr (p, busy) ↦
            let of_spec : contains id (child_ids s.spec.children) ≡ true =
              contains-child_ids id s.spec.children
              ∙ ap (λ (t : SupervisorSpec). is_some (find_spec id t.children))
                  (sym (spec_kept s after.1 moves))
              ∙ held_known after.1 id p sound' busy in
            shutdown-stops runtime s w fine id of_spec
      ]

  escalate-Moves :
      (s : Supervisor) (e : Error) (t : Supervisor) (w : W)
      → Moves s t
      → Moves s (escalate runtime e t w).1
  unfolding escalate
  escalate-Moves s e t w m = elim (Option-cases (shutdown runtime t w).0) [
    | inl fine ↦ rw (fine, escalate) (shutdown-Moves runtime s t w m)
    | inr (f, bad) ↦ rw (bad, escalate) (shutdown-Moves runtime s t w m)
  ]

  escalate-returned : (e : Error) (t : Supervisor) (w : W) → (escalate runtime e t w).0 ≢ returned
  unfolding escalate
  escalate-returned e t w = λ h. elim (Option-cases (shutdown runtime t w).0) [
    | inl fine ↦ absurd (ground (arith, rw (fine, escalate) at h))
    | inr (f, bad) ↦ absurd (ground (arith, rw (bad, escalate) at h))
  ]

  supervise-Moves :
      (s : Supervisor) (events : List Event) (t : Supervisor) (w : W)
      → Moves s t
      → Moves s (supervise runtime events t w).1
  unfolding supervise escalate
  supervise-Moves s [] t w m = m
  supervise-Moves s (shutdown_requested ∷ events) t w m =
      elim (Option-cases (shutdown runtime t w).0) [
        | inl fine ↦ rw (fine, supervise) (shutdown-Moves runtime s t w m)
        | inr (e, bad) ↦ rw (bad, supervise) (shutdown-Moves runtime s t w m)
      ]
  supervise-Moves s (other_message ∷ events) t w m = supervise-Moves s events t w m
  supervise-Moves s (process_died process reason now ∷ events) t w m =
      let after = handle_process_exit runtime process reason now t w in
      let m' = handle_process_exit-Moves runtime s process reason now t w m in
      elim (Option-cases after.0) [
        | inl fine ↦ rw (fine, supervise) (supervise-Moves s events after.1 after.2 m')
        | inr (e, bad) ↦ rw (bad, supervise) (escalate-Moves s e after.1 after.2 m')
      ]

  supervise-LeavesNone :
      (events : List Event) (t : Supervisor) (w : W)
      → IsSound t
      → LeavesNone (supervise runtime events t w)
  unfolding supervise
  supervise-LeavesNone [] t w sound h = absurd (ground (arith, h))
  supervise-LeavesNone (shutdown_requested ∷ events) t w sound h =
      elim (Option-cases (shutdown runtime t w).0) [
        | inl fine ↦ rw (fine, supervise) (shutdown-LeavesNone t w sound fine)
        | inr (e, bad) ↦ absurd (ground (arith, rw (bad, supervise) at h))
      ]
  supervise-LeavesNone (other_message ∷ events) t w sound h =
      supervise-LeavesNone events t w sound h
  supervise-LeavesNone (process_died process reason now ∷ events) t w sound h =
      let after = handle_process_exit runtime process reason now t w in
      let sound' =
        Moves-IsSound t after.1 sound
          (handle_process_exit-Moves runtime t process reason now t w stay) in
      elim (Option-cases after.0) [
        | inl fine ↦
            rw (fine, supervise)
              (supervise-LeavesNone events after.1 after.2 sound' (rw (fine, supervise) at h))
        | inr (e, bad) ↦ absurd (escalate-returned e after.1 after.2 (rw (bad, supervise) at h))
      ]

  held-nil : (cs : List ChildSpec) → held cs [] ≡ []
  unfolding held child_process
  held-nil [] = refl
  held-nil (c ∷ cs) = held-nil cs

  abbrev spawned : SupervisorSpec → ℕ → Supervisor
  spawned spec process = record {
    spec = spec;
    children = [];
    restart_history = [];
    monitor = some process;
    cleanup_tracker = some [];
  }

  spawned-IsSound : (spec : SupervisorSpec) (process : ℕ) → IsSound (spawned spec process)
  spawned-IsSound spec process = record {
    tracked = λ ps e. ground (arith, e, held-nil spec.children);
    known = λ j h. absurd (ground (arith, h));
  }

  process-Moves :
      (spec : SupervisorSpec) (process : ℕ) (events : List Event) (w : W)
      → Moves (spawned spec process) (supervisor_process runtime spec process events w).1
        × LeavesNone (supervisor_process runtime spec process events w)
  unfolding supervisor_process with_environment
  process-Moves spec process events w =
      let s0 = spawned spec process in
      let after = start_children runtime s0 w in
      let m = start_children-Moves runtime s0 s0 w stay in
      elim (Option-cases after.0) [
        | inl fine ↦
            rw (fine, supervisor_process)
              (
                supervise-Moves s0 events after.1 after.2 m,
                supervise-LeavesNone events after.1 after.2
                    (Moves-IsSound s0 after.1 (spawned-IsSound spec process) m),
              )
        | inr (e, bad) ↦ rw (bad, supervisor_process) (m, λ h. absurd (ground (arith, h)))
      ]

  -- Whatever reaches the process of a supervisor, and wherever it stops, by a failed start, an
  -- escalation, a requested shutdown or while it waits: every process that a child has then is one
  -- that the guard kills. After a requested shutdown that succeeds no child has one.
  pub no_orphans :
      (spec : SupervisorSpec) (process : ℕ) (events : List Event) (w : W) (id child : ℕ)
      → let (progress, s, w') = supervisor_process runtime spec process events w in
        child_process id s.children ≡ some child
        → (contains child (dropped_guard progress s) ≡ true) × (progress ≢ returned)
  no_orphans spec process events w id child has =
      let (progress, s, w') = supervisor_process runtime spec process events w in
      let (m, leaves) = process-Moves spec process events w in
      let sound = Moves-IsSound (spawned spec process) s (spawned-IsSound spec process) m in
      (
        guarded_child progress s id child sound (tracker_kept (spawned spec process) s m)
            (λ h. leaves h id) has,
        λ h. absurd (ground (arith, leaves h id, has)),
      )
