-- ===== src/Supervisor/Effects.antt =====
-- crates/lunatic-otp-patterns/src/supervisor.rs, `stop_child` and `shutdown`: which children have a
-- process after them.
use lunatic.Prelude.{
  ℕ, ◌≡◌, ◌⊎◌, inl, inr, refl, subst, ==→eq, ◌∙◌, List, [], ◌∷◌, Option, none, some, true,
  if◌then◌else◌, ◌==◌, ==_refl, arith, contains, Bool-cases, Option-cases, reverse,
}
use lunatic.Prelude.Maps
use lunatic.Prelude.Maps.{get-put}
use lunatic.Prelude.Members.{contains-append}
use lunatic.Supervisor.{
  ChildState, Supervisor, Error, Runtime, child_process, refresh_cleanup_tracker, clear_process,
  stop_registered, stop_child, wait_for_process_exit, stop_limit,
}
use lunatic.Supervisor.Restarts.{shutdown_all, shutdown, child_ids}

-- The process of a child goes, the others stay.
pub cleared_process :
    (id : ℕ) (s : Supervisor) (j : ℕ)
    → child_process j (refresh_cleanup_tracker (clear_process id s)).children
      ≡ (if id == j then none else child_process j s.children)
unfolding refresh_cleanup_tracker clear_process child_process
cleared_process id s j = elim (Option-cases (Maps.get s.children id)) [
  | inl absent ↦ ground (arith, absent)
  | inr (state, e) ↦ ground (arith, e, get-put id (record state { process = none }) s.children j)
]

pub contains-reverse : (x : ℕ) (xs : List ℕ) → contains x (reverse xs) ≡ contains x xs
unfolding contains
contains-reverse x [] = refl
contains-reverse x (y ∷ xs) =
    ground (arith, contains-append x (reverse xs) (y ∷ []), contains-reverse x xs)

module _ {W : Type 0} (runtime : Runtime W) where
  -- After a stop, a child has the process that it had or none, none where it is the one stopped.
  pub record Stops (id : ℕ) (s : Supervisor) (r : Option Error × Supervisor × W) : Type 0 where
    pub only_loses :
        (j : ℕ)
        → (child_process j r.1.children ≡ child_process j s.children)
          ⊎ (child_process j r.1.children ≡ none)
    pub stopped : r.0 ≡ none → child_process id r.1.children ≡ none

  unstopped-Stops : (id : ℕ) (s : Supervisor) (e : Error) (w : W) → Stops id s (some e, s, w)
  unstopped-Stops id s e w = record {
    only_loses = λ j. inl refl;
    stopped = λ h. absurd (ground (arith, h));
  }

  cleared-Stops :
      (id : ℕ) (s : Supervisor) (e : Option Error) (w : W)
      → Stops id s (e, refresh_cleanup_tracker (clear_process id s), w)
  cleared-Stops id s e w = record {
    only_loses = λ j. ground (arith, cleared_process id s j);
    stopped = λ h. ground (arith, cleared_process id s id, ==_refl id);
  }

  stop_registered-Stops :
      (id : ℕ) (state : ChildState) (process : ℕ) (s : Supervisor) (w : W)
      → Stops id s (stop_registered runtime id state process s w)
  unfolding stop_registered
  stop_registered-Stops id state process s w =
      let w1 = (runtime.kill process w).1 in
      elim (Bool-cases (runtime.kill process w).0) [
        | inr unsent ↦ rw (unsent, stop_registered) (unstopped-Stops id s _ w1)
        | inl sent ↦
            elim (Bool-cases
              (wait_for_process_exit runtime
                (runtime.looks (stop_limit state.spec.shutdown) process w1) process w1).0) [
                  | inl gone ↦ rw (sent, gone, stop_registered) (cleared-Stops id s none _)
                  | inr there ↦ rw (sent, there, stop_registered) (unstopped-Stops id s _ _)
                ]
      ]

  idle-Stops :
      (id : ℕ) (s : Supervisor) (w : W)
      → child_process id s.children ≡ none
      → Stops id s (none, s, w)
  idle-Stops id s w idle = record { only_loses = λ j. inl refl; stopped = λ h. idle }

  pub stop_child-Stops : (id : ℕ) (s : Supervisor) (w : W) → Stops id s (stop_child runtime id s w)
  unfolding stop_child child_process
  stop_child-Stops id s w = elim (Bool-cases (runtime.multi_thread w)) [
    | inr single ↦ rw (single, stop_child) (unstopped-Stops id s _ w)
    | inl many ↦ elim (Option-cases (Maps.get s.children id)) [
      | inl absent ↦ rw (many, absent, stop_child) (unstopped-Stops id s _ w)
      | inr (state, e) ↦ elim (Option-cases state.process) [
        | inl idle ↦ rw (many, e, idle, stop_child) (idle-Stops id s w (ground (arith, e, idle)))
        | inr (process, p) ↦ elim (Bool-cases (runtime.registered w process)) [
          | inl alive ↦
              rw (many, e, p, alive, stop_child) (stop_registered-Stops id state process s w)
          | inr gone ↦ rw (many, e, p, gone, stop_child) (cleared-Stops id s none w)
        ]
      ]
    ]
  ]

  -- Who is left to stop, or has no process.
  abbrev Left : ℕ → List ℕ → Supervisor → Type 0
  Left j ids s = (contains j ids ≡ true) ⊎ (child_process j s.children ≡ none)

  absent-Left :
      (id j : ℕ) (ids : List ℕ) (s : Supervisor)
      → Maps.get s.children id ≡ none
      → Left j (id ∷ ids) s
      → Left j ids s
  unfolding contains child_process
  absent-Left id j ids s absent (inr idle) = inr idle
  absent-Left id j ids s absent (inl h) = elim (Bool-cases (id == j)) [
    | inl same ↦ inr (rw (← ==→eq id j same) (ground (arith, absent)))
    | inr other ↦ inl (ground (arith, h, other))
  ]

  stopped-Left :
      (id j : ℕ) (ids : List ℕ) (s : Supervisor) (r : Option Error × Supervisor × W)
      → Stops id s r
      → r.0 ≡ none
      → Left j (id ∷ ids) s
      → Left j ids r.1
  unfolding contains
  stopped-Left id j ids s r stops fine (inr idle) = inr (ground (arith, stops.only_loses j, idle))
  stopped-Left id j ids s r stops fine (inl h) = elim (Bool-cases (id == j)) [
    | inl same ↦
        inr
          (subst (λ i. child_process i r.1.children ≡ none) (==→eq id j same) (stops.stopped fine))
    | inr other ↦ inl (ground (arith, h, other))
  ]

  shutdown_all-stops :
      (ids : List ℕ) (s : Supervisor) (w : W)
      → (shutdown_all runtime ids s w).0 ≡ none
      → (j : ℕ) → Left j ids s
      → child_process j (shutdown_all runtime ids s w).1.children ≡ none
  unfolding shutdown_all contains child_process
  shutdown_all-stops [] s w fine j (inl h) = absurd (ground (arith, h))
  shutdown_all-stops [] s w fine j (inr idle) = idle
  shutdown_all-stops (id ∷ ids) s w fine j h = elim (Option-cases (Maps.get s.children id)) [
    | inl absent ↦
        rw (absent, shutdown_all)
          (shutdown_all-stops ids s w (rw (absent, shutdown_all) at fine) j
            (absent-Left id j ids s absent h))
    | inr (state, e) ↦ elim (Option-cases (stop_child runtime id s w).0) [
      | inr (failure, failed) ↦ absurd (ground (arith, rw (e, failed, shutdown_all) at fine))
      | inl stopped ↦
          rw (e, stopped, shutdown_all)
            (shutdown_all-stops ids _ _ (rw (e, stopped, shutdown_all) at fine) j
              (stopped-Left id j ids s _ (stop_child-Stops id s w) stopped h))
    ]
  ]

  -- A shutdown that succeeds leaves no child of the specification a process.
  pub shutdown-stops :
      (s : Supervisor) (w : W)
      → (shutdown runtime s w).0 ≡ none
      → (j : ℕ) → contains j (child_ids s.spec.children) ≡ true
      → child_process j (shutdown runtime s w).1.children ≡ none
  unfolding shutdown
  shutdown-stops s w fine j h =
      shutdown_all-stops (reverse (child_ids s.spec.children)) s w fine j
        (inl (contains-reverse j (child_ids s.spec.children) ∙ h))
