-- ===== src/ModuleRegistry/Processes.antt =====
-- Processes that start on, move between and leave the versions of a module.
use native.Mathlib.Nat.{le_trans}
use lunatic.Prelude.{
  ℕ, ◌≡◌, ◌∙◌, ◌⊎◌, inl, inr, none, some, true, false, arith, is_some, ◌==◌, ==→eq, Bool-cases,
  Option-cases,
}
use lunatic.ModuleRegistry.{
  ProcessKey, ModuleVersion, ModuleHistory, ok, contains_key, insert_key, remove_key, find_version,
  update_version, cleanup_old_versions, enter_version, leave_version, leave_found, move_version,
  move_found, moved,
}
use lunatic.ModuleRegistry.History.{
  registrations, runs, find-update, registrations_absent, runs_only,
}
use lunatic.ModuleRegistry.Cleanup.{runs-cleanup}
use lunatic.ModuleRegistry.Invariant.{
  IsSound, cleanup-IsSound, updated-IsSound, registrations-insert, registrations-remove,
  registrations-removed, runs_inserted, runs_nowhere,
}

entered :
    (id version : ℕ) (process : ProcessKey) (h h' : ModuleHistory)
    → IsSound h
    → enter_version id version process h ≡ ok h'
    → IsSound h'
      × (registrations process h.versions ≡ 0)
      × (runs process version h'.versions ≡ true)
unfolding enter_version
entered id version process h h' v e = found (Option-cases (find_version version h.versions))
  where
    absent : registrations process h.versions ≡ 0
    absent = registrations_absent process h.versions (ground arith)

    found :
        (find_version version h.versions ≡ none)
          ⊎ ((t : ModuleVersion) × (find_version version h.versions ≡ some t))
        → IsSound h'
          × (registrations process h.versions ≡ 0)
          × (runs process version h'.versions ≡ true)
    found (inl missing) = ground arith
    found (inr (t, there)) =
        let same : h'
            ≡ record h { versions = update_version version (insert_key process) h.versions } =
          ground arith in
        rw same (
          updated-IsSound version (insert_key process) h
              (λ k. registrations-insert k process version h.versions t there absent (v.unique k))
              v,
          absent,
          runs_inserted process version h.versions t there,
        )

-- Registering a process, where it succeeds, keeps a sound history sound. The process ran on no
-- version before, and runs on the version asked for and on no other after.
pub enter-IsSound :
    (id version : ℕ) (process : ProcessKey) (h h' : ModuleHistory) (n : ℕ)
    → IsSound h
    → enter_version id version process h ≡ ok h'
    → IsSound h'
      × (runs process n h.versions ≡ false)
      × (runs process n h'.versions ≡ (n == version))
enter-IsSound id version process h h' n v e =
    let (w, absent, on_it) = entered id version process h h' v e in
    (
      w,
      runs_nowhere process n h.versions absent,
      runs_only process n version h'.versions (w.unique process) on_it,
    )

left_behind :
    (max_versions id version : ℕ) (process : ProcessKey) (h h' : ModuleHistory)
    → IsSound h
    → leave_version max_versions id version process h ≡ ok h'
    → IsSound h'
      × (runs process version h.versions ≡ true)
      × ((n : ℕ) → runs process n h'.versions ≡ false)
unfolding leave_version leave_found runs
left_behind max_versions id version process h h' v e =
    found (Option-cases (find_version version h.versions))
  where
    found :
        (find_version version h.versions ≡ none)
          ⊎ ((t : ModuleVersion) × (find_version version h.versions ≡ some t))
        → IsSound h'
          × (runs process version h.versions ≡ true)
          × ((n : ℕ) → runs process n h'.versions ≡ false)
    found (inl missing) = ground arith
    found (inr (t, there)) =
        let left : ModuleHistory = record h {
          versions = update_version version (remove_key process) h.versions;
        } in
        let on_it : contains_key process t.processes ≡ true = ground arith in
        let same : h' ≡ cleanup_old_versions max_versions left = ground arith in
        let gone =
          registrations-removed process version h.versions t there on_it (v.unique process) in
        let sound =
          updated-IsSound version (remove_key process) h
            (λ k. le_trans (registrations-remove k process version h.versions t there) (v.unique k))
            v in
        rw same (
          cleanup-IsSound max_versions left sound,
          rw (there, runs) on_it,
          λ n.
              runs-cleanup process n max_versions left sound.ascending
              ∙ runs_nowhere process n left.versions gone,
        )

-- Unregistering a process, where it succeeds, keeps a sound history sound. The process ran on the
-- version named and on no other, and runs on none after.
pub leave-IsSound :
    (max_versions id version : ℕ) (process : ProcessKey) (h h' : ModuleHistory) (n : ℕ)
    → IsSound h
    → leave_version max_versions id version process h ≡ ok h'
    → IsSound h'
      × (runs process n h.versions ≡ (n == version))
      × (runs process n h'.versions ≡ false)
leave-IsSound max_versions id version process h h' n v e =
    let (w, on_it, gone) = left_behind max_versions id version process h h' v e in
    (w, runs_only process n version h.versions (v.unique process) on_it, gone n)

MovedTo : ProcessKey → ℕ → ℕ → ModuleHistory → ModuleHistory → Type 0
MovedTo process old new h h' =
    IsSound h' × (runs process old h.versions ≡ true) × (runs process new h'.versions ≡ true)

stays-MovedTo :
    (process : ProcessKey) (old new : ℕ) (h : ModuleHistory)
    → IsSound h
    → runs process old h.versions ≡ true
    → old ≡ new
    → MovedTo process old new h h
unfolding MovedTo
stays-MovedTo process old new h v on_it same = (v, on_it, rw (← same) on_it)

moves-MovedTo :
    (max_versions : ℕ) (process : ProcessKey) (old new : ℕ) (h : ModuleHistory)
    (source : ModuleVersion)
    → IsSound h
    → find_version old h.versions ≡ some source
    → contains_key process source.processes ≡ true
    → is_some (find_version new h.versions) ≡ true
    → MovedTo process old new h (
        cleanup_old_versions max_versions (record h {
          versions =
              update_version new
                (insert_key process)
                (update_version old (remove_key process) h.versions);
        }))
unfolding MovedTo runs
moves-MovedTo max_versions process old new h source v there on_it known =
    arrive (Option-cases (find_version new left.versions))
  where
    left : ModuleHistory
    left = record h { versions = update_version old (remove_key process) h.versions }

    gone : registrations process left.versions ≡ 0
    gone = registrations-removed process old h.versions source there on_it (v.unique process)

    left-IsSound : IsSound left
    left-IsSound =
        updated-IsSound old (remove_key process) h
          (λ k. le_trans (registrations-remove k process old h.versions source there) (v.unique k))
          v

    arrived : ModuleHistory
    arrived = record left { versions = update_version new (insert_key process) left.versions }

    arrive :
        (find_version new left.versions ≡ none)
          ⊎ ((t : ModuleVersion) × (find_version new left.versions ≡ some t))
        → MovedTo process old new h (cleanup_old_versions max_versions arrived)
    arrive (inl missing) =
        let still = find-update new old (remove_key process) h.versions in
        cc (still, missing, known)
    arrive (inr (t, target)) =
        let sound : IsSound arrived =
          updated-IsSound new (insert_key process) left
            (λ k.
              registrations-insert k process new left.versions t target gone
                (left-IsSound.unique k))
            left-IsSound in
        (
          cleanup-IsSound max_versions arrived sound,
          rw (there, runs) on_it,
          runs-cleanup process new max_versions arrived sound.ascending
              ∙ runs_inserted process new left.versions t target,
        )

moved_over :
    (max_versions id old new : ℕ) (process : ProcessKey) (h h' : ModuleHistory)
    → IsSound h
    → move_version max_versions id old new process h ≡ ok h'
    → MovedTo process old new h h'
unfolding move_version move_found moved MovedTo runs
moved_over max_versions id old new process h h' v e =
    found (Option-cases (find_version old h.versions))
  where
    stay_or_move :
        (s : ModuleVersion)
        → find_version old h.versions ≡ some s
        → contains_key process s.processes ≡ true
        → ((old == new) ≡ true) ⊎ ((old == new) ≡ false)
        → MovedTo process old new h h'
    stay_or_move s there on_it (inl same) =
        let unchanged : h' ≡ h = ground arith in
        rw unchanged
          (stays-MovedTo process old new h v (rw (there, runs) on_it) (==→eq old new same))
    stay_or_move s there on_it (inr other) =
        let known : is_some (find_version new h.versions) ≡ true = ground arith in
        let moves : h'
            ≡ cleanup_old_versions max_versions (record h {
              versions =
                  update_version new (insert_key process)
                    (update_version old (remove_key process) h.versions);
            }) =
          ground arith in
        rw moves (moves-MovedTo max_versions process old new h s v there on_it known)

    found :
        (find_version old h.versions ≡ none)
          ⊎ ((s : ModuleVersion) × (find_version old h.versions ≡ some s))
        → MovedTo process old new h h'
    found (inl missing) = ground arith
    found (inr (s, there)) =
        let on_it : contains_key process s.processes ≡ true = ground arith in
        stay_or_move s there on_it (Bool-cases (old == new))

-- A transition that succeeds keeps a sound history sound. The process ran on the old version and on
-- no other, and runs on the new one and on no other after.
pub move-IsSound :
    (max_versions id old new : ℕ) (process : ProcessKey) (h h' : ModuleHistory) (n : ℕ)
    → IsSound h
    → move_version max_versions id old new process h ≡ ok h'
    → IsSound h'
      × (runs process n h.versions ≡ (n == old))
      × (runs process n h'.versions ≡ (n == new))
unfolding MovedTo
move-IsSound max_versions id old new process h h' n v e =
    let (w, was, is_now) = moved_over max_versions id old new process h h' v e in
    (
      w,
      runs_only process n old h.versions (v.unique process) was,
      runs_only process n new h'.versions (w.unique process) is_now,
    )
