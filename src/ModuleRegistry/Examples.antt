-- ===== src/ModuleRegistry/Examples.antt =====
-- The registry theorems at a history with a committed, an idle and a new version, and a run.
use lunatic.Prelude.{
  ℕ, ◌-◌, ◌<◌, ◌↔◌, some, contains, All, ◌≡◌, refl, List, [], ◌∷◌, none, true, false, ◌⊎◌, inr,
  arith, ◌≤◌, is_some,
}
use lunatic.External.ConcurrentMap.{assoc}
use lunatic.ModuleRegistry.{
  ModuleHistory, ModuleVersion, ProcessKey, contains_key, find_version, push_version,
  commit_version, enter_version, update_version, any_contains, insert_key, remove_key,
  leave_version, move_version, add_version, register_process, transition_process, mark_committed,
  cleanup_old_versions, with_max_versions, history_of, version_count, get_committed,
}
use lunatic.ModuleRegistry.{new, add_dependency, get_dependents}
use lunatic.ModuleRegistry.ReloadOrder.{get_reload_order}
use lunatic.ModuleRegistry.ReloadOrder.Reached.{Distinct}
use lunatic.ModuleRegistry.ReloadOrder.Orders.{After}
use lunatic.ModuleRegistry.ReloadOrder.Links.{
  Reach, add_all, in_links, get_reload_order-Reach, get_reload_order-After,
}
use lunatic.ModuleRegistry.History.{registrations, runs, Ascending}
use lunatic.ModuleRegistry.Invariant.{IsSound}
use lunatic.ModuleRegistry.Versions.{push-IsSound}
use lunatic.ModuleRegistry.Cleanup.{cleanup_keeps}
use lunatic.ModuleRegistry.Processes.{enter-IsSound, leave-IsSound, move-IsSound}
use lunatic.ModuleRegistry.Registry.{
  Op, adds, commits, registers, transitions, run, step, run-history,
}

abbrev alice : ProcessKey
alice = record { environment_id = 1; process_id = 7 }

abbrev bob : ProcessKey
bob = record { environment_id = 1; process_id = 8 }

abbrev version_at : ℕ → List ProcessKey → ModuleVersion
version_at n ps = record { id = 4; version = n; compiled = 100; loaded_at = 0; processes = ps }

-- Version 1 is committed and runs `alice`, version 2 is idle.
abbrev upgraded : ModuleHistory
upgraded = record {
  next_version = 3;
  committed_version = 1;
  versions = version_at 1 (alice ∷ []) ∷ version_at 2 [] ∷ [];
}

upgraded_unique : (k : ProcessKey) → registrations k upgraded.versions ≤ 1
unfolding registrations contains_key
upgraded_unique k = ground arith

upgraded-IsSound : IsSound upgraded
unfolding find_version
upgraded-IsSound = record {
  ascending = omega arith;
  committed = inr refl;
  unique = upgraded_unique;
}

-- A cleanup to two versions drops the idle version 2 for version 3, and keeps the committed one.
cleanup_three :
    (cleanup_old_versions 1 (record upgraded {
      next_version = 4;
      versions = version_at 1 [] ∷ version_at 2 [] ∷ version_at 3 [] ∷ [];
    })).versions
    ≡ version_at 1 [] ∷ version_at 3 [] ∷ []
unfolding cleanup_old_versions
cleanup_three = refl

abbrev moved_alice : ModuleHistory
moved_alice = record upgraded { versions = version_at 1 [] ∷ version_at 2 (alice ∷ []) ∷ [] }

enter-IsSound_example : runs alice 2 moved_alice.versions ≡ true
unfolding enter_version find_version any_contains contains_key update_version insert_key
enter-IsSound_example =
    (enter-IsSound 4 2 alice (record upgraded { versions = version_at 1 [] ∷ version_at 2 [] ∷ [] })
      moved_alice 2 idle-IsSound refl).2
  where
    idle-IsSound : IsSound (record upgraded { versions = version_at 1 [] ∷ version_at 2 [] ∷ [] })
    idle-IsSound = record {
      ascending = omega arith;
      committed = inr refl;
      unique = λ k. unfold registrations contains_key in omega arith;
    }

leave-IsSound_example :
    runs alice 1 (record upgraded { versions = version_at 1 [] ∷ version_at 2 [] ∷ [] }).versions
    ≡ false
unfolding leave_version find_version contains_key update_version remove_key
leave-IsSound_example = (leave-IsSound 2 4 1 alice upgraded _ 1 upgraded-IsSound refl).2

move-IsSound_example : runs alice 2 moved_alice.versions ≡ true
unfolding move_version find_version contains_key update_version remove_key insert_key
move-IsSound_example = (move-IsSound 2 4 1 2 alice upgraded moved_alice 2 upgraded-IsSound refl).2

push-IsSound_example : find_version 3 upgraded.versions ≡ none
unfolding push_version
push-IsSound_example = (push-IsSound 2 4 100 0 3 upgraded _ (omega arith) upgraded-IsSound refl).1

cleanup_keeps_example :
    find_version 1 (cleanup_old_versions 1 upgraded).versions ≡ find_version 1 upgraded.versions
cleanup_keeps_example = (cleanup_keeps 1 upgraded alice 1 (omega arith)).1

abbrev ops : List Op
ops = adds 4 100 0 ∷ adds 4 101 1 ∷ registers 4 0 alice ∷ transitions 4 0 1 alice ∷ commits 4 1 ∷ []

abbrev after_ops : ModuleHistory
after_ops = record {
  next_version = 2;
  committed_version = 1;
  versions =
      record { id = 4; version = 0; compiled = 100; loaded_at = 0; processes = [] }
      ∷ record { id = 4; version = 1; compiled = 101; loaded_at = 1; processes = alice ∷ [] }
      ∷ [];
}

run-history_example :
    Ascending 0 after_ops.next_version after_ops.versions
    × ((version_count assoc assoc 4 (run assoc assoc (with_max_versions assoc assoc 2) ops) ≡ 0)
        ⊎ (is_some
              (get_committed assoc assoc 4 (run assoc assoc (with_max_versions assoc assoc 2) ops))
            ≡ true))
    × ((k : ProcessKey) → registrations k after_ops.versions ≤ 1)
unfolding run step with_max_versions history_of add_version register_process transition_process
    mark_committed push_version commit_version enter_version move_version find_version any_contains
    contains_key update_version insert_key remove_key
run-history_example = run-history assoc assoc 2 ops 4 after_ops refl

-- Module 2 depends on 1, and 3 on 1 and 2.
abbrev links : List (ℕ × ℕ)
links = (2, 1) ∷ (3, 1) ∷ (3, 2) ∷ []

get_reload_order-Reach_example :
    (order : List ℕ) × (get_reload_order assoc assoc 4 1
        (add_all assoc assoc links (new assoc assoc))
      ≡ some order)
    × Distinct order
    × ((x : ℕ) → (contains x order ≡ true) ↔ Reach (in_links assoc assoc links) 1 x)
get_reload_order-Reach_example = get_reload_order-Reach assoc assoc links 4 1 (omega arith)

links_fall : (x : ℕ) → All (λ d. 10 - d < 10 - x) (in_links assoc assoc links x)
unfolding add_all add_dependency get_dependents new contains
links_fall x = ground arith

get_reload_order-After_example :
    (order : List ℕ) × (get_reload_order assoc assoc 4 1
        (add_all assoc assoc links (new assoc assoc))
      ≡ some order)
    × (contains 1 order ≡ true)
    × After (in_links assoc assoc links) [] order
get_reload_order-After_example =
    get_reload_order-After assoc assoc links 4 1 (λ x. 10 - x) (omega arith) links_fall
