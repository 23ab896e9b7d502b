-- ===== src/ModuleRegistry/ReloadOrder.antt =====
-- `ModuleRegistry::get_reload_order`, of crates/lunatic-process/src/module_registry.rs: a depth-first
-- search over the dependents. The recursion of `visit_module` takes fuel; `none` is fuel that ran
-- out, and `Ends` shows how much is enough. Both sets are lists of what was put in.
pub mod Ends
pub mod Reached
pub mod Orders
pub mod Links
use lunatic.Prelude.{ℕ, zero, suc, List, [], ◌∷◌, ◌++◌, Option, none, some, contains, if◌then◌else◌}
use lunatic.External.ConcurrentMap.{ConcurrentMap}
use lunatic.ModuleRegistry.{ModuleHistory, ModuleRegistry, get_dependents}

pub record Search : Type 0 where
  pub order : List ℕ
  pub visited : List ℕ

-- `visited.insert`, of a module that is not in it.
abbrev pub mark : ℕ → Search → Search
mark m s = record s { visited = m ∷ s.visited }

-- `order.push`.
abbrev pub push : ℕ → Search → Search
push m s = record s { order = s.order ++ m ∷ [] }

-- The loop over the dependents, given what visits one.
unfoldable pub visit_all : (ℕ → Search → Option Search) → List ℕ → Search → Option Search
visit_all visit [] s = some s
visit_all visit (d ∷ ds) s = elim (visit d s) [ none ↦ none | some s' ↦ visit_all visit ds s' ]

module _ (dependents : ℕ → List ℕ) where
  unfoldable pub finish : ℕ → Option Search → Option Search
  finish m none = none
  finish m (some s) = some (push m s)

  unfoldable pub visit_module : ℕ → ℕ → Search → Option Search
  visit_module zero m s = if contains m s.visited then some s else none
  visit_module (suc fuel) m s =
      let rest = finish m (visit_all (visit_module fuel) (dependents m) (mark m s)) in
      if contains m s.visited then some s else rest

module _ {M D : Type 0} (histories : ConcurrentMap ModuleHistory M)
    (lists : ConcurrentMap (List ℕ) D) where
  unfoldable pub get_reload_order : ℕ → ℕ → ModuleRegistry M D → Option (List ℕ)
  get_reload_order fuel m r =
      elim (visit_module (λ d. get_dependents histories lists d r) fuel m
        (record { order = []; visited = [] })) [ none ↦ none | some s ↦ some s.order ]
