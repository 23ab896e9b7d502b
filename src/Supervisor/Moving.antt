-- ===== src/Supervisor/Moving.antt =====
-- crates/lunatic-otp-patterns/src/supervisor.rs: every operation is made of the changes of `Moves`.
use lunatic.Prelude.{
  ℕ, ◌≡◌, ◌⊎◌, inl, inr, refl, ap, ◌∙◌, List, [], ◌∷◌, some, Bool, true, false, arith, length, ltb,
  ◌+◌, ◌-◌, Bool-cases, Option-cases, reverse,
}
use lunatic.Prelude.Maps
use lunatic.Prelude.Maps.{get-put}
use lunatic.Message.{DeathReason}
use lunatic.Supervisor.{
  ExitReason, ChildSpec, ChildState, Supervisor, Error, Result, ok, err, Runtime, find_spec,
  refresh_cleanup_tracker, clear_process, attach, launch, running, start_child_internal,
  stop_registered, stop_child, wait_for_process_exit, stop_limit,
}
use lunatic.Supervisor.Restarts.{
  reserve_restart_events, retain_events, to_restart, should_restart, child_of, exit_reason,
  stop_each, stop_all, start_all, start_children, restart_children, handle_child_exit,
  handle_process_exit, shutdown_all, shutdown, child_ids,
}
use lunatic.Supervisor.Tracker.{Moves, cleared, installed, counted}

module _ {W : Type 0} (runtime : Runtime W) (s : Supervisor) where
  pub launch-Moves :
      (id : ℕ) (spec : ChildSpec) (is_restart : Bool) (t : Supervisor) (w : W)
      → find_spec id t.spec.children ≡ some spec
      → Moves s t
      → Moves s (launch runtime id spec is_restart t w).1
  unfolding launch
  launch-Moves id spec is_restart t w its m = elim (Option-cases (runtime.start spec.start w).0) [
    | inl refused ↦ rw (refused, launch) m
    | inr (process, e) ↦
        elim (Option-cases (attach runtime id process t.monitor (runtime.start spec.start w).1).0) [
          | inl fine ↦ rw (e, fine, launch) (installed id process spec is_restart its m)
          | inr (failure, no_monitor) ↦ rw (e, no_monitor, launch) m
        ]
  ]

  refresh_clear-specs :
      (id : ℕ) (t : Supervisor)
      → (refresh_cleanup_tracker (clear_process id t)).spec.children ≡ t.spec.children
  unfolding refresh_cleanup_tracker clear_process
  refresh_clear-specs id t = ground arith

  pub start_child_internal-Moves :
      (id : ℕ) (is_restart : Bool) (t : Supervisor) (w : W)
      → Moves s t
      → Moves s (start_child_internal runtime id is_restart t w).1
  unfolding start_child_internal
  start_child_internal-Moves id is_restart t w m = elim (Bool-cases (runtime.multi_thread w)) [
    | inr single ↦ rw (single, start_child_internal) m
    | inl many ↦ elim (Option-cases (find_spec id t.spec.children)) [
      | inl unknown ↦ rw (many, unknown, start_child_internal) m
      | inr (spec, its) ↦ elim (Option-cases (running runtime id t w)) [
        | inr (process, alive) ↦ rw (many, its, alive, start_child_internal) m
        | inl idle ↦
            rw (many, its, idle, start_child_internal)
              (launch-Moves id spec is_restart _ w
                (ap (find_spec id) (refresh_clear-specs id t) ∙ its) (cleared id m))
      ]
    ]
  ]

  stop_registered-Moves :
      (id : ℕ) (state : ChildState) (process : ℕ) (t : Supervisor) (w : W)
      → Moves s t
      → Moves s (stop_registered runtime id state process t w).1
  unfolding stop_registered
  stop_registered-Moves id state process t w m =
      let w1 = (runtime.kill process w).1 in
      elim (Bool-cases (runtime.kill process w).0) [
        | inr unsent ↦ rw (unsent, stop_registered) m
        | inl sent ↦
            elim (Bool-cases
              (wait_for_process_exit runtime
                (runtime.looks (stop_limit state.spec.shutdown) process w1) process w1).0) [
                  | inl gone ↦ rw (sent, gone, stop_registered) (cleared id m)
                  | inr there ↦ rw (sent, there, stop_registered) m
                ]
      ]

  pub stop_child-Moves :
      (id : ℕ) (t : Supervisor) (w : W) → Moves s t → Moves s (stop_child runtime id t w).1
  unfolding stop_child
  stop_child-Moves id t w m = elim (Bool-cases (runtime.multi_thread w)) [
    | inr single ↦ rw (single, stop_child) m
    | inl many ↦ elim (Option-cases (Maps.get t.children id)) [
      | inl absent ↦ rw (many, absent, stop_child) m
      | inr (state, e) ↦ elim (Option-cases state.process) [
        | inl idle ↦ rw (many, e, idle, stop_child) m
        | inr (process, p) ↦ elim (Bool-cases (runtime.registered w process)) [
          | inl alive ↦
              rw (many, e, p, alive, stop_child) (stop_registered-Moves id state process t w m)
          | inr gone ↦ rw (many, e, p, gone, stop_child) (cleared id m)
        ]
      ]
    ]
  ]

  stop_each-Moves :
      (ids : List ℕ) (t : Supervisor) (w : W) → Moves s t → Moves s (stop_each runtime ids t w).0
  unfolding stop_each
  stop_each-Moves [] t w m = m
  stop_each-Moves (id ∷ ids) t w m = stop_each-Moves ids _ _ (stop_child-Moves id t w m)

  stop_all-Moves :
      (ids : List ℕ) (t : Supervisor) (w : W) → Moves s t → Moves s (stop_all runtime ids t w).1
  unfolding stop_all
  stop_all-Moves [] t w m = m
  stop_all-Moves (id ∷ ids) t w m = elim (Option-cases (stop_child runtime id t w).0) [
    | inr (failure, e) ↦ rw (e, stop_all) (stop_child-Moves id t w m)
    | inl fine ↦ rw (fine, stop_all) (stop_all-Moves ids _ _ (stop_child-Moves id t w m))
  ]

  Result-cases : (r : Result ℕ) → ((e : Error) × (r ≡ err e)) ⊎ ((process : ℕ) × (r ≡ ok process))
  Result-cases (err e) = inl (e, refl)
  Result-cases (ok process) = inr (process, refl)

  start_all-Moves :
      (is_restart : Bool) (ids started : List ℕ) (t : Supervisor) (w : W)
      → Moves s t
      → Moves s (start_all runtime is_restart ids started t w).1
  unfolding start_all
  start_all-Moves is_restart [] started t w m = m
  start_all-Moves is_restart (id ∷ ids) started t w m =
      let moved = start_child_internal-Moves id is_restart t w m in
      elim (Result-cases (start_child_internal runtime id is_restart t w).0) [
        | inl (e, failed) ↦ rw (failed, start_all) (stop_each-Moves started _ _ moved)
        | inr (process, fine) ↦
            rw (fine, start_all) (start_all-Moves is_restart ids (id ∷ started) _ _ moved)
      ]

  reserve-Moves :
      (ids : List ℕ) (now : ℕ) (t : Supervisor)
      → Moves s t
      → Moves s (reserve_restart_events ids now t).1
  unfolding reserve_restart_events
  reserve-Moves ids now t m =
      elim (Bool-cases (
        ltb t.spec.max_restarts
          (length (retain_events (now - t.spec.max_seconds) t.restart_history) + length ids))) [
            | inl over ↦ rw (over, reserve_restart_events) (counted _ m)
            | inr under ↦ rw (under, reserve_restart_events) (counted _ m)
          ]

  restart_children-Moves :
      (ids : List ℕ) (now : ℕ) (t : Supervisor) (w : W)
      → Moves s t
      → Moves s (restart_children runtime ids now t w).1
  unfolding restart_children
  restart_children-Moves ids now t w m =
      let t1 = (reserve_restart_events ids now t).1 in
      let m1 = reserve-Moves ids now t m in
      let m2 = stop_all-Moves (reverse ids) t1 w m1 in
      elim (Option-cases (reserve_restart_events ids now t).0) [
        | inr (e, refused) ↦ rw (refused, restart_children) m1
        | inl granted ↦ elim (Option-cases (stop_all runtime (reverse ids) t1 w).0) [
          | inr (e, failed) ↦ rw (granted, failed, restart_children) m2
          | inl stopped ↦
              rw (granted, stopped, restart_children) (start_all-Moves true ids [] _ _ m2)
        ]
      ]

  handle_child_exit-Moves :
      (id : ℕ) (reason : ExitReason) (now : ℕ) (t : Supervisor) (w : W)
      → Moves s t
      → Moves s (handle_child_exit runtime id reason now t w).1
  unfolding handle_child_exit
  handle_child_exit-Moves id reason now t w m = elim (Option-cases (Maps.get t.children id)) [
    | inl absent ↦ rw (absent, handle_child_exit) m
    | inr (state, e) ↦ elim (Bool-cases (should_restart state.spec.restart reason)) [
      | inr final ↦ rw (e, final, handle_child_exit) (stop_child-Moves id t w m)
      | inl again ↦ elim (Option-cases (to_restart t.spec.strategy id t.spec.children t.children)) [
        | inl unknown ↦ rw (e, again, unknown, handle_child_exit) m
        | inr (ids, chosen) ↦
            rw (e, again, chosen, handle_child_exit) (restart_children-Moves ids now t w m)
      ]
    ]
  ]

  pub handle_process_exit-Moves :
      (process : ℕ) (reason : DeathReason) (now : ℕ) (t : Supervisor) (w : W)
      → Moves s t
      → Moves s (handle_process_exit runtime process reason now t w).1
  unfolding handle_process_exit
  handle_process_exit-Moves process reason now t w m =
      elim (Option-cases (child_of process t.children)) [
        | inl stale ↦ rw (stale, handle_process_exit) m
        | inr (id, e) ↦
            rw (e, handle_process_exit) (handle_child_exit-Moves id (exit_reason reason) now t w m)
      ]

  pub start_children-Moves :
      (t : Supervisor) (w : W) → Moves s t → Moves s (start_children runtime t w).1
  unfolding start_children
  start_children-Moves t w m = start_all-Moves false (child_ids t.spec.children) [] t w m

  shutdown_all-Moves :
      (ids : List ℕ) (t : Supervisor) (w : W) → Moves s t → Moves s (shutdown_all runtime ids t w).1
  unfolding shutdown_all
  shutdown_all-Moves [] t w m = m
  shutdown_all-Moves (id ∷ ids) t w m = elim (Option-cases (Maps.get t.children id)) [
    | inl absent ↦ rw (absent, shutdown_all) (shutdown_all-Moves ids t w m)
    | inr (state, e) ↦ elim (Option-cases (stop_child runtime id t w).0) [
      | inr (failure, failed) ↦ rw (e, failed, shutdown_all) (stop_child-Moves id t w m)
      | inl fine ↦
          rw (e, fine, shutdown_all) (shutdown_all-Moves ids _ _ (stop_child-Moves id t w m))
    ]
  ]

  pub shutdown-Moves : (t : Supervisor) (w : W) → Moves s t → Moves s (shutdown runtime t w).1
  unfolding shutdown
  shutdown-Moves t w m = shutdown_all-Moves (reverse (child_ids t.spec.children)) t w m
