-- ===== src/ModuleRegistry/ReloadOrder/Ends.antt =====
-- The search ends, and visits each module that it reaches once.
use lunatic.Prelude.{
  ℕ, zero, suc, ◌≤◌, ◌≡◌, inl, inr, refl, List, [], ◌∷◌, Option, some, true, arith, contains,
  Bool-cases, All,
}
use lunatic.ModuleRegistry.ReloadOrder.{Search, mark, push, visit_all, finish, visit_module}
use lunatic.Prelude.Members.{Within, unseen, unseen-Within, unseen-mark, contains-later}

-- A step of the search that ends and forgets nothing it has visited.
abbrev pub Ends : Search → Option Search → Type 0
Ends s r = (s' : Search) × (r ≡ some s') × Within s.visited s'.visited

visit_all-Ends :
    (us : List ℕ) (fuel : ℕ) (visit : ℕ → Search → Option Search)
    → ((d : ℕ) (s : Search)
        → contains d us ≡ true
        → unseen us s.visited ≤ fuel
        → Ends s (visit d s))
    → (ds : List ℕ) (s : Search) → All (λ d. contains d us ≡ true) ds
    → unseen us s.visited ≤ fuel
    → Ends s (visit_all visit ds s)
unfolding visit_all
visit_all-Ends us fuel visit one [] s known enough = (s, refl, λ x h. h)
visit_all-Ends us fuel visit one (d ∷ ds) s (known, rest) enough =
    let (s1, e1, kept1) = one d s known enough in
    let (s2, e2, kept2) =
      visit_all-Ends us fuel visit one ds s1 rest
        (omega (arith, unseen-Within us s.visited s1.visited kept1, enough)) in
    (s2, rw (e1, visit_all) e2, λ x h. kept2 x (kept1 x h))

-- With all that can be visited in `us`, as much fuel as there is left to visit is enough.
pub visit_module-Ends :
    (dependents : ℕ → List ℕ) (us : List ℕ)
    → ((i : ℕ) → contains i us ≡ true → All (λ d. contains d us ≡ true) (dependents i))
    → (fuel m : ℕ) (s : Search) → contains m us ≡ true
    → unseen us s.visited ≤ fuel
    → Ends s (visit_module dependents fuel m s)
unfolding visit_module finish
visit_module-Ends dependents us closed zero m s known enough =
    elim (Bool-cases (contains m s.visited)) [
      | inl old ↦ (s, rw (old, visit_module) refl, λ x h. h)
      | inr new ↦ absurd (omega (arith, unseen-mark us s.visited m known new, enough))
    ]
visit_module-Ends dependents us closed (suc fuel) m s known enough =
    elim (Bool-cases (contains m s.visited)) [
      | inl old ↦ (s, rw (old, visit_module) refl, λ x h. h)
      | inr new ↦
          let (s', e, kept) =
            visit_all-Ends us fuel (visit_module dependents fuel)
              (λ d t. visit_module-Ends dependents us closed fuel d t) (dependents m) (mark m s)
              (closed m known) (omega (arith, unseen-mark us s.visited m known new, enough)) in
          (
            push m s',
            rw (new, e, visit_module, finish) refl,
            λ x h. kept x (contains-later x m s.visited h),
          )
    ]
