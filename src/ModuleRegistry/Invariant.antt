-- ===== src/ModuleRegistry/Invariant.antt =====
-- What holds of a module's history between two calls.
use lunatic.Prelude.{
  ℕ, ◌-◌, ◌≤◌, ◌≡◌, refl, ap, ◌∙◌, ◌⊎◌, inl, inr, List, [], some, true, false, arith, length,
  is_some, ==_refl, Bool-cases,
}
use lunatic.ModuleRegistry.{
  ProcessKey, ModuleVersion, ModuleHistory, key_eq, contains_key, insert_key, remove_key,
  find_version, update_version, cleanup_old_versions, empty_history,
}
use lunatic.ModuleRegistry.History.{
  Ascending, registrations, runs, Ascending-update, find-update, contains-insert, contains-remove,
  key_eq→eq, key_eq_refl, runs-update, registrations-update, runs-registrations,
}
use lunatic.ModuleRegistry.Cleanup.{Ascending-retain, find-retain_committed, registrations-retain}

-- The version numbers rise and were all given out; the committed version is there unless no version
-- is; and no process is registered twice.
pub record IsSound (h : ModuleHistory) : Type 0 where
  pub ascending : Ascending 0 h.next_version h.versions
  pub committed : (h.versions ≡ []) ⊎ (is_some (find_version h.committed_version h.versions) ≡ true)
  pub unique : (k : ProcessKey) → registrations k h.versions ≤ 1

pub empty-IsSound : IsSound empty_history
unfolding registrations
empty-IsSound = record { ascending = omega arith; committed = inl refl; unique = λ k. omega arith }

pub cleanup-IsSound :
    (max_versions : ℕ) (h : ModuleHistory)
    → IsSound h
    → IsSound (cleanup_old_versions max_versions h)
unfolding cleanup_old_versions
cleanup-IsSound max_versions h v = record {
  ascending = Ascending-retain 0 _ h.committed_version 0 h.next_version h.versions v.ascending;
  committed = still v.committed;
  unique = λ k. rw (registrations-retain k 0 _ h.committed_version h.versions) (v.unique k);
}
  where
    still :
        (h.versions ≡ []) ⊎ (is_some (find_version h.committed_version h.versions) ≡ true)
        → ((cleanup_old_versions max_versions h).versions ≡ [])
          ⊎ (is_some
                (find_version h.committed_version (cleanup_old_versions max_versions h).versions)
              ≡ true)
    still (inl e) = inl (rw e refl)
    still (inr e) = inr (
        rw
          (find-retain_committed 0 (length h.versions - max_versions) h.committed_version
            h.versions)
          e)

pub updated-IsSound :
    (n : ℕ) (f : List ProcessKey → List ProcessKey) (h : ModuleHistory)
    → ((k : ProcessKey) → registrations k (update_version n f h.versions) ≤ 1)
    → IsSound h
    → IsSound (record h { versions = update_version n f h.versions })
unfolding update_version
updated-IsSound n f h unique v = record {
  ascending = Ascending-update 0 h.next_version n f h.versions v.ascending;
  committed = still v.committed;
  unique = unique;
}
  where
    still :
        (h.versions ≡ []) ⊎ (is_some (find_version h.committed_version h.versions) ≡ true)
        → (update_version n f h.versions ≡ [])
          ⊎ (is_some (find_version h.committed_version (update_version n f h.versions)) ≡ true)
    still (inl e) = inl (rw e refl)
    still (inr e) = inr (find-update h.committed_version n f h.versions ∙ e)

-- One more registration of `process`, on a version that it is not on.
pub registrations-insert :
    (k process : ProcessKey) (n : ℕ) (vs : List ModuleVersion) (v : ModuleVersion)
    → find_version n vs ≡ some v
    → registrations process vs ≡ 0
    → registrations k vs ≤ 1
    → registrations k (update_version n (insert_key process) vs) ≤ 1
registrations-insert k process n vs v found absent one = elim (Bool-cases (key_eq process k)) [
  | inl same ↦ ground (
    arith,
    registrations-update k n (insert_key process) vs v found,
    contains-insert k process v.processes,
    ap (λ (q : ProcessKey). registrations q vs) (key_eq→eq process k same),
  )
  | inr other ↦ ground (
    arith,
    registrations-update k n (insert_key process) vs v found,
    contains-insert k process v.processes,
  )
]

pub registrations-remove :
    (k process : ProcessKey) (n : ℕ) (vs : List ModuleVersion) (v : ModuleVersion)
    → find_version n vs ≡ some v
    → registrations k (update_version n (remove_key process) vs) ≤ registrations k vs
registrations-remove k process n vs v found = ground (
  arith,
  registrations-update k n (remove_key process) vs v found,
  contains-remove k process v.processes,
)

-- A process that is removed from the one version that it runs on runs nowhere.
pub registrations-removed :
    (process : ProcessKey) (n : ℕ) (vs : List ModuleVersion) (v : ModuleVersion)
    → find_version n vs ≡ some v
    → contains_key process v.processes ≡ true
    → registrations process vs ≤ 1
    → registrations process (update_version n (remove_key process) vs) ≡ 0
registrations-removed process n vs v found there one = ground (
  arith,
  registrations-update process n (remove_key process) vs v found,
  contains-remove process process v.processes,
  key_eq_refl process,
)

pub runs_inserted :
    (process : ProcessKey) (n : ℕ) (vs : List ModuleVersion) (v : ModuleVersion)
    → find_version n vs ≡ some v
    → runs process n (update_version n (insert_key process) vs) ≡ true
runs_inserted process n vs v found = ground (
  arith,
  runs-update process n n (insert_key process) vs,
  contains-insert process process v.processes,
  key_eq_refl process,
  ==_refl n,
)

pub runs_nowhere :
    (k : ProcessKey) (n : ℕ) (vs : List ModuleVersion)
    → registrations k vs ≡ 0
    → runs k n vs ≡ false
runs_nowhere k n vs h = ground (arith, runs-registrations k n vs)
