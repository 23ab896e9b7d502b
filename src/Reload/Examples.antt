-- ===== src/Reload/Examples.antt =====
-- The theorems of the reload coordinator at two processes of one module, and runs of it.
use lunatic.Prelude.{
  ℕ, ◌≡◌, ◌↔◌, ◌+◌, refl, List, [], ◌∷◌, Option, none, some, Bool, true, contains, arith,
}
use lunatic.External.ConcurrentMap.{assoc}
use lunatic.ModuleRegistry.{
  ModuleRegistry, ModuleHistory, ModuleVersion, ProcessKey, new, processes_for_module,
}
use lunatic.ModuleRegistry.ReloadOrder.Reached.{Distinct}
use lunatic.ModuleRegistry.ReloadOrder.Links.{Reach, in_links, add_all}
use lunatic.Reload.{
  ReloadAcknowledgement, ReloadOperation, applied, committed, in_doubt, rolled_back, status,
  perform_atomic_reload, is_reload_in_progress, Reply, Request, protocol_error, take_reply,
  collect_loop, remove_one, time_outs, collect_acknowledgements, dispatch, start_reload,
  get_affected_processes, insert_operation, set_status, finish, apply_phase, roll_back_phase,
  blocks_new_operation, insert_by_key, sort_by_key, status_error, is_success,
}
use lunatic.ModuleRegistry.{sort_dedup, insert_sorted}
use lunatic.Reload.Confirmed.{Good, confirmed-commits, repliers}
use lunatic.Reload.Outcomes.{Outcome, atomic-Outcome}
use lunatic.Reload.Coordinated.{CoordinatedError, perform_coordinated_reload}
use lunatic.Reload.Coordinated.Progress.{Progress}
use lunatic.Reload.Coordinated.Steps.{coordinated-Progress}

abbrev Ops : Type 0
Ops = List (ℕ × ReloadOperation)

abbrev everywhere : ℕ → Request → Bool
everywhere id request = true

abbrev ack : ℕ → ℕ → ReloadAcknowledgement
ack id version = record {
  process_id = id;
  module_id = 4;
  previous_version = 1;
  current_version = version;
  status = applied;
}

-- Processes 7 and 9 of module 4 answer in the order 9, 7.
abbrev both_answer : List Reply
both_answer = (9, some (ack 9 2)) ∷ (7, some (ack 7 2)) ∷ []

-- Process 7 stays at version 1.
abbrev one_stays : List Reply
one_stays = (9, some (ack 9 2)) ∷ (7, some (ack 7 1)) ∷ []

status_after : List Reply → List Reply → Option ℕ
status_after apply back =
    elim (status assoc 4
      (perform_atomic_reload assoc everywhere apply back 4 1 2 (9 ∷ 7 ∷ 9 ∷ []) []).1) [
        | some (committed acks) ↦ some 1
        | some (rolled_back es acks) ↦ some 2
        | some (in_doubt es rs acks) ↦ some 3
        | _ ↦ none
      ]

runs :
    (status_after both_answer [] ≡ some 1)
    × (status_after one_stays ((7, some (ack 7 1)) ∷ (9, some (ack 9 1)) ∷ []) ≡ some 2)
    × (status_after one_stays ((7, some (ack 7 1)) ∷ []) ≡ some 3)
unfolding status_after status perform_atomic_reload protocol_error take_reply collect_loop
    remove_one time_outs collect_acknowledgements dispatch start_reload get_affected_processes
    insert_operation set_status finish apply_phase roll_back_phase blocks_new_operation
    insert_by_key sort_by_key status_error is_success sort_dedup insert_sorted contains
runs = (refl, refl, refl)

good : (id : ℕ) → Good 4 2 (id, some (ack id 2))
unfolding is_success
good id = (ack id 2, refl, refl, record { of_module = refl; at_target = refl; successful = refl })

confirmed-commits_example :
    let (failure, after) =
      perform_atomic_reload assoc everywhere both_answer [] 4 1 2 (9 ∷ 7 ∷ []) [] in
    (failure ≡ none)
    × (acks : List ReloadAcknowledgement) × (status assoc 4 after ≡ some (committed acks))
unfolding is_reload_in_progress repliers contains
confirmed-commits_example =
    confirmed-commits assoc everywhere both_answer [] 4 1 2 (9 ∷ 7 ∷ []) [] refl (λ x h. refl)
      (good 9, (good 7, tt)) (λ x h. h)

atomic-Outcome_example :
    Outcome assoc 4 1 2
      (9 ∷ 7 ∷ [])
      []
      (perform_atomic_reload assoc everywhere one_stays [] 4 1 2 (9 ∷ 7 ∷ []) [])
atomic-Outcome_example = atomic-Outcome assoc everywhere one_stays [] 4 1 2 (9 ∷ 7 ∷ []) []

abbrev version_at : ℕ → List ProcessKey → ModuleVersion
version_at n ps = record { id = 4; version = n; compiled = 100 + n; loaded_at = 0; processes = ps }

-- Processes 7 and 9 run the committed version of module 4.
abbrev module_four : ModuleHistory
module_four = record {
  next_version = 3;
  committed_version = 1;
  versions =
      version_at 1 (
        record { environment_id = 1; process_id = 7 }
        ∷ record { environment_id = 1; process_id = 9 }
        ∷ [])
      ∷ version_at 2 []
      ∷ [];
}

-- Module 5 depends on module 4.
abbrev linked : ModuleRegistry (List (ℕ × ModuleHistory)) (List (ℕ × List ℕ))
linked = record (add_all assoc assoc ((5, 4) ∷ []) (new assoc assoc)) {
  modules = (4, module_four) ∷ [];
}

coordinated-Progress_example :
    (order : List ℕ) × ((x : ℕ)
      → (contains x order ≡ true) ↔ Reach (in_links assoc assoc ((5, 4) ∷ [])) 4 x)
    × Distinct order
    × (result : Option CoordinatedError
        × ModuleRegistry (List (ℕ × ModuleHistory)) (List (ℕ × List ℕ))
        × Ops)
    × (perform_coordinated_reload assoc assoc assoc everywhere
          (λ m. both_answer)
          (λ m. [])
          (λ m r. r)
          2
          1
          4
          2
          linked
          []
        ≡ some result)
    × Progress assoc 4 2
        (λ m. processes_for_module assoc assoc m 1 linked)
        []
        result.2
        result.0
        order
coordinated-Progress_example =
    coordinated-Progress assoc assoc assoc everywhere (λ m. both_answer) (λ m. []) (λ m r. r)
      ((5, 4) ∷ []) 2 1 4 2 linked [] (omega arith) refl
