-- ===== src/ModuleRegistry/Registry.antt =====
-- The registry of a node: every history in it is sound, after any calls.
use native.Mathlib.Nat.{le_trans}
use lunatic.Prelude.{
  ℕ, ◌≤◌, ◌≡◌, refl, subst, ◌⊎◌, inl, inr, List, [], ◌∷◌, Option, none, some, true, arith, is_some,
  if◌then◌else◌, ◌==◌, Bool-cases, Option-cases,
}
use lunatic.External.ConcurrentMap.{ConcurrentMap}
use lunatic.ModuleRegistry.{
  ModuleRegistry, ModuleHistory, ProcessKey, Result, ok, err, entry_of, history_of, update_history,
  with_max_versions, add_version, mark_committed, register_process, transition_process,
  unregister_process, push_version, commit_version, enter_version, move_version, leave_version,
  find_version, get_committed, version_count,
}
use lunatic.ModuleRegistry.History.{registrations, Ascending}
use lunatic.ModuleRegistry.Invariant.{IsSound, empty-IsSound}
use lunatic.ModuleRegistry.Versions.{push-IsSound, commit-IsSound}
use lunatic.ModuleRegistry.Processes.{enter-IsSound, leave-IsSound, move-IsSound}

pub data Op : Type 0 where
  adds : ℕ → ℕ → ℕ → Op
  commits : ℕ → ℕ → Op
  registers : ℕ → ℕ → ProcessKey → Op
  transitions : ℕ → ℕ → ℕ → ProcessKey → Op
  unregisters : ℕ → ℕ → ProcessKey → Op

module _ {M D : Type 0} (histories : ConcurrentMap ModuleHistory M)
    (lists : ConcurrentMap (List ℕ) D) where
  -- A call that fails leaves the registry as it was.
  abbrev kept : ModuleRegistry M D → Result (ModuleRegistry M D) → ModuleRegistry M D
  kept r (ok r') = r'
  kept r (err e) = r

  abbrev kept_added : ModuleRegistry M D → Result (ModuleRegistry M D × ℕ) → ModuleRegistry M D
  kept_added r (ok (r', version)) = r'
  kept_added r (err e) = r

  unfoldable pub step : ModuleRegistry M D → Op → ModuleRegistry M D
  step r (adds id compiled now) = kept_added r (add_version histories lists id compiled now r)
  step r (commits id version) = kept r (mark_committed histories lists id version r)
  step r (registers id version process) =
      kept r (register_process histories lists id version process r)
  step r (transitions id old new process) =
      kept r (transition_process histories lists id old new process r)
  step r (unregisters id version process) =
      kept r (unregister_process histories lists id version process r)

  unfoldable pub run : ModuleRegistry M D → List Op → ModuleRegistry M D
  run r [] = r
  run r (op ∷ ops) = run (step r op) ops

  pub record IsSoundRegistry (r : ModuleRegistry M D) : Type 0 where
    pub room : 2 ≤ r.max_versions
    pub sound : (id : ℕ) (h : ModuleHistory) → history_of histories lists id r ≡ some h → IsSound h

  put : ℕ → ModuleHistory → ModuleRegistry M D → ModuleRegistry M D
  put id h r = record r { modules = histories.insert id h r.modules }

  history_of-put :
      (id j : ℕ) (h : ModuleHistory) (r : ModuleRegistry M D)
      → history_of histories lists j (put id h r)
        ≡ (if id == j then some h else history_of histories lists j r)
  unfolding put history_of
  history_of-put id j h r = histories.get-insert id h r.modules j

  put-IsSound :
      (id : ℕ) (h : ModuleHistory) (r : ModuleRegistry M D)
      → IsSound h
      → IsSoundRegistry r
      → IsSoundRegistry (put id h r)
  unfolding put
  put-IsSound id h r v w = record { room = w.room; sound = every }
    where
      every :
          (j : ℕ) (g : ModuleHistory)
          → history_of histories lists j (put id h r) ≡ some g
          → IsSound g
      every j g e = elim (Bool-cases (id == j)) [
        | inl same ↦
            let is_h : h ≡ g = ground (arith, history_of-put id j h r) in subst IsSound is_h v
        | inr other ↦ w.sound j g (ground (arith, history_of-put id j h r))
      ]

  -- A call on the history of a module that keeps it sound keeps the registry sound.
  update-IsSound :
      (id : ℕ) (f : ModuleHistory → Result ModuleHistory) (r : ModuleRegistry M D)
      → ((h h' : ModuleHistory) → IsSound h → f h ≡ ok h' → IsSound h')
      → IsSoundRegistry r
      → IsSoundRegistry (kept r (update_history histories lists id f r))
  unfolding update_history put
  update-IsSound id f r keeps w = elim (Option-cases (history_of histories lists id r)) [
    | inl missing ↦ rw (missing, update_history) w
    | inr (h, there) ↦ rw (there, update_history) (split h there (f h) refl)
  ]
    where
      split :
          (h : ModuleHistory)
          → history_of histories lists id r ≡ some h
          → (x : Result ModuleHistory) → f h ≡ x
          → IsSoundRegistry (kept r (elim x [ err e ↦ err e | ok h' ↦ ok (put id h' r) ]))
      split h there (ok h') e = put-IsSound id h' r (keeps h h' (w.sound id h there) e) w
      split h there (err x) e = w

  add-IsSound :
      (id compiled now : ℕ) (r : ModuleRegistry M D)
      → IsSoundRegistry r
      → IsSoundRegistry (kept_added r (add_version histories lists id compiled now r))
  unfolding add_version put
  add-IsSound id compiled now r w =
      pushed (entry_of (history_of histories lists id r)) (sound_entry _ refl) _ refl
    where
      sound_entry :
          (o : Option ModuleHistory) → history_of histories lists id r ≡ o → IsSound (entry_of o)
      sound_entry none e = unfold entry_of in empty-IsSound
      sound_entry (some h) e = w.sound id h e

      pushed :
          (h : ModuleHistory)
          → IsSound h
          → (x : Result (ModuleHistory × ℕ)) → push_version r.max_versions id compiled now h ≡ x
          → IsSoundRegistry (
              kept_added r
                (elim x [ err e ↦ err e | ok (h', version) ↦ ok (put id h' r, version) ]))
      pushed h v (ok (h', version)) e =
          put-IsSound id h' r
            (push-IsSound r.max_versions id compiled now version h h'
              (le_trans (omega arith) w.room) v e).0
            w
      pushed h v (err x) e = w

  step-IsSound :
      (r : ModuleRegistry M D) (op : Op) → IsSoundRegistry r → IsSoundRegistry (step r op)
  unfolding step mark_committed register_process transition_process unregister_process
  step-IsSound r (adds id compiled now) w = add-IsSound id compiled now r w
  step-IsSound r (commits id version) w =
      update-IsSound id (commit_version r.max_versions id version) r
        (λ h h' v e. (commit-IsSound r.max_versions id version h h' v e).0) w
  step-IsSound r (registers id version process) w =
      update-IsSound id (enter_version id version process) r
        (λ h h' v e. (enter-IsSound id version process h h' 0 v e).0) w
  step-IsSound r (transitions id old new process) w =
      update-IsSound id (move_version r.max_versions id old new process) r
        (λ h h' v e. (move-IsSound r.max_versions id old new process h h' 0 v e).0) w
  step-IsSound r (unregisters id version process) w =
      update-IsSound id (leave_version r.max_versions id version process) r
        (λ h h' v e. (leave-IsSound r.max_versions id version process h h' 0 v e).0) w

  run-IsSound :
      (r : ModuleRegistry M D) (ops : List Op) → IsSoundRegistry r → IsSoundRegistry (run r ops)
  unfolding run
  run-IsSound r [] w = w
  run-IsSound r (op ∷ ops) w = run-IsSound (step r op) ops (step-IsSound r op w)

  with_max_versions-IsSound : (n : ℕ) → IsSoundRegistry (with_max_versions histories lists n)
  unfolding with_max_versions history_of
  with_max_versions-IsSound n = record {
    room = omega arith;
    sound = λ id h e. cc (histories.get-empty id);
  }

  -- After any calls on a new registry, whatever limit it was made with, and failing calls included:
  -- the version numbers of every module rise along its list, below the next number; the committed
  -- version of a module that has versions can be fetched; and no process is registered with a
  -- module on more than one version.
  pub run-history :
      (n : ℕ) (ops : List Op) (id : ℕ) (h : ModuleHistory)
      → history_of histories lists id (run (with_max_versions histories lists n) ops) ≡ some h
      → let r = run (with_max_versions histories lists n) ops in
        Ascending 0 h.next_version h.versions
        × ((version_count histories lists id r ≡ 0)
            ⊎ (is_some (get_committed histories lists id r) ≡ true))
        × ((k : ProcessKey) → registrations k h.versions ≤ 1)
  unfolding version_count get_committed
  run-history n ops id h there =
      let w = run-IsSound _ ops (with_max_versions-IsSound n) in
      let v = w.sound id h there in (v.ascending, served v.committed, v.unique)
    where
      served :
          (h.versions ≡ []) ⊎ (is_some (find_version h.committed_version h.versions) ≡ true)
          → (version_count histories lists id (run (with_max_versions histories lists n) ops) ≡ 0)
            ⊎ (is_some
                  (get_committed histories lists id (run (with_max_versions histories lists n) ops))
                ≡ true)
      served (inl e) = inl (rw (there, version_count) (rw e refl))
      served (inr e) = inr (ground arith)
