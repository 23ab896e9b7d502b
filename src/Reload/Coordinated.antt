-- ===== src/Reload/Coordinated.antt =====
-- crates/lunatic-process/src/hot_reload.rs, `perform_coordinated_reload`: a module is reloaded with
-- the modules that depend on it, one transaction after the other. The transaction lock of a module
-- has no state; what the processes do to the registry while they reload a module is a parameter.
pub mod Progress
pub mod Steps
use lunatic.Prelude.{ℕ, List, [], ◌∷◌, Option, none, some, Bool, if◌then◌else◌, ◌==◌}
use lunatic.External.ConcurrentMap.{ConcurrentMap}
use lunatic.ModuleRegistry as Registry
use lunatic.ModuleRegistry.{
  ModuleHistory, ModuleRegistry, ok, err, get_committed_version_number, mark_committed,
  processes_for_module,
}
use lunatic.ModuleRegistry.ReloadOrder.{get_reload_order}
use lunatic.Reload.{ReloadOperation, Request, Reply, Error, perform_atomic_reload}

-- Why it ends early: the module that failed, or that could not be marked as committed.
pub data CoordinatedError : Type 0 where
  failed_at : ℕ → Error → CoordinatedError
  not_marked : ℕ → Registry.Error → CoordinatedError

unfoldable pub unwrap_or_zero : Option ℕ → ℕ
unwrap_or_zero none = 0
unwrap_or_zero (some n) = n

module _ {O M D : Type 0} (operations : ConcurrentMap ReloadOperation O)
    (histories : ConcurrentMap ModuleHistory M) (lists : ConcurrentMap (List ℕ) D)
    (deliver : ℕ → Request → Bool) (apply_replies rollback_replies : ℕ → List Reply)
    (meanwhile : ℕ → ModuleRegistry M D → ModuleRegistry M D) where
  -- The modules of the order from some place on, given the module asked for, its new version and
  -- the processes found for each module.
  unfoldable pub reload_modules :
      ℕ
      → ℕ
      → (ℕ → List ℕ)
      → List ℕ
      → ModuleRegistry M D
      → O
      → Option CoordinatedError × ModuleRegistry M D × O
  reload_modules module_id new_version affected [] r ops = (none, r, ops)
  reload_modules module_id new_version affected (mid ∷ mids) r ops =
      let old_version = unwrap_or_zero (get_committed_version_number histories lists mid r) in
      let version_to_use = if mid == module_id then new_version else old_version in
      elim (affected mid) [
        | [] ↦ reload_modules module_id new_version affected mids r ops
        | p ∷ ps ↦
            let (failure, ops') =
              perform_atomic_reload operations deliver (apply_replies mid) (rollback_replies mid)
                mid old_version version_to_use (affected mid) ops in
            elim failure [
              | some e ↦ (some (failed_at mid e), meanwhile mid r, ops')
              | none ↦ elim (mark_committed histories lists mid version_to_use (meanwhile mid r)) [
                | err e ↦ (some (not_marked mid e), meanwhile mid r, ops')
                | ok r' ↦ reload_modules module_id new_version affected mids r' ops'
              ]
            ]
      ]

  -- The fuel is that of `get_reload_order`.
  unfoldable pub perform_coordinated_reload :
      ℕ
      → ℕ
      → ℕ
      → ℕ
      → ModuleRegistry M D
      → O
      → Option (Option CoordinatedError × ModuleRegistry M D × O)
  perform_coordinated_reload fuel env_id module_id new_version r ops =
      elim (get_reload_order histories lists fuel module_id r) [
        | none ↦ none
        | some order ↦ some (
            reload_modules module_id new_version
              (λ mid. processes_for_module histories lists mid env_id r) order r ops)
      ]
