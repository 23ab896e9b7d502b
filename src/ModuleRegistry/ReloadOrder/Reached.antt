-- ===== src/ModuleRegistry/ReloadOrder/Reached.antt =====
-- The search finds exactly what can be reached, each module once.
use lunatic.Prelude.{
  ℕ, zero, suc, ◌≡◌, ◌⊎◌, inl, inr, refl, ◌∙◌, List, [], ◌∷◌, ◌++◌, Option, some, true, false,
  arith, contains, Bool-cases, Option-cases, All,
}
use lunatic.ModuleRegistry.ReloadOrder.{Search, mark, push, visit_all, finish, visit_module}
use lunatic.Prelude.Members.{
  Within, contains-later, contains_self, contains-cons, contains-append, contains-snoc,
  contains-snoc_old, contains-snoc_self,
}

abbrev pub Distinct : List ℕ → Type 0
Distinct [] = Unit
Distinct (x ∷ xs) = (contains x xs ≡ false) × Distinct xs

Distinct-snoc :
    (xs : List ℕ) (m : ℕ) → Distinct xs → contains m xs ≡ false → Distinct (xs ++ m ∷ [])
unfolding contains
Distinct-snoc [] m d new = (refl, tt)
Distinct-snoc (x ∷ xs) m (own, d) new =
    (contains-append x xs (m ∷ []) ∙ ground arith, Distinct-snoc xs m d (ground arith))

module _ (dependents : ℕ → List ℕ) (P : ℕ → Type 0) where
  -- What a step of the search adds: modules of `P` that were not visited, with all their dependents.
  pub record Finds (s s' : Search) : Type 0 where
    pub found :
        (x : ℕ)
        → contains x s'.order ≡ true
        → (contains x s.order ≡ true)
          ⊎ ((contains x s.visited ≡ false)
              × P x
              × All (λ d. contains d s'.visited ≡ true) (dependents x))
    pub visited_kept : Within s.visited s'.visited
    pub order_kept : Within s.order s'.order
    pub settled :
        (x : ℕ)
        → contains x s'.visited ≡ true
        → (contains x s'.order ≡ true) ⊎ (contains x s.visited ≡ true)
    pub order_visited : Within s'.order s'.visited
    pub distinct : Distinct s'.order

  All-visited :
      (ds : List ℕ) (s s' : Search)
      → Within s.visited s'.visited
      → All (λ d. contains d s.visited ≡ true) ds
      → All (λ d. contains d s'.visited ≡ true) ds
  All-visited [] s s' kept h = tt
  All-visited (d ∷ ds) s s' kept (h, hs) = (kept d h, All-visited ds s s' kept hs)

  Finds-refl : (s : Search) → Within s.order s.visited → Distinct s.order → Finds s s
  Finds-refl s w d = record {
    found = λ x h. inl h;
    visited_kept = λ x h. h;
    order_kept = λ x h. h;
    settled = λ x h. inr h;
    order_visited = w;
    distinct = d;
  }

  Finds-trans : (s t u : Search) → Finds s t → Finds t u → Finds s u
  Finds-trans s t u f g = record {
    found = λ x h. first x (g.found x h);
    visited_kept = λ x h. g.visited_kept x (f.visited_kept x h);
    order_kept = λ x h. g.order_kept x (f.order_kept x h);
    settled = λ x h. ground (arith, g.settled x h, f.settled x, g.order_kept x);
    order_visited = g.order_visited;
    distinct = g.distinct;
  }
    where
      first :
          (x : ℕ)
          → (contains x t.order ≡ true)
            ⊎ ((contains x t.visited ≡ false)
                × P x
                × All (λ d. contains d u.visited ≡ true) (dependents x))
          → (contains x s.order ≡ true)
            ⊎ ((contains x s.visited ≡ false)
                × P x
                × All (λ d. contains d u.visited ≡ true) (dependents x))
      first x (inl old) = elim (f.found x old) [
        | inl h ↦ inl h
        | inr (new, p, ds) ↦ inr (new, p, All-visited (dependents x) t u g.visited_kept ds)
      ]
      first x (inr (new, p, ds)) = inr (ground (arith, f.visited_kept x), p, ds)

  -- What a visit promises, and what it asks for.
  abbrev pub Visits : (ℕ → Search → Option Search) → Type 0
  Visits visit =
      (m : ℕ) (s s' : Search)
      → P m
      → Within s.order s.visited
      → Distinct s.order
      → visit m s ≡ some s'
      → Finds s s' × (contains m s'.visited ≡ true)

  visit_all-Finds :
      (visit : ℕ → Search → Option Search)
      → Visits visit
      → (ds : List ℕ) (s s' : Search) → All P ds
      → Within s.order s.visited
      → Distinct s.order
      → visit_all visit ds s ≡ some s'
      → Finds s s' × All (λ d. contains d s'.visited ≡ true) ds
  unfolding visit_all
  visit_all-Finds visit one [] s s' ps w d e =
      let same : s' ≡ s = ground arith in rw same (Finds-refl s w d, tt)
  visit_all-Finds visit one (x ∷ xs) s s' (p, ps) w d e = elim (Option-cases (visit x s)) [
    | inl none_left ↦ absurd (ground (arith, e, none_left))
    | inr (t, e1) ↦
        let (f, seen) = one x s t p w d e1 in
        let (g, rest) =
          visit_all-Finds visit one xs t s' ps f.order_visited f.distinct
            (rw (e1, visit_all) at e) in
        (Finds-trans s t s' f g, (g.visited_kept x seen, rest))
  ]

  pushed-Finds :
      (m : ℕ) (s t : Search)
      → P m
      → Within s.order s.visited
      → contains m s.visited ≡ false
      → Finds (mark m s) t
      → All (λ d. contains d t.visited ≡ true) (dependents m)
      → Finds s (push m t)
  pushed-Finds m s t p w new f ds = record {
    found = λ x h. member x (contains-snoc x m t.order h);
    visited_kept = λ x h. f.visited_kept x (contains-later x m s.visited h);
    order_kept = λ x h. contains-snoc_old x m t.order (f.order_kept x h);
    settled = λ x h. settle x (f.settled x h);
    order_visited = λ x h. known x (contains-snoc x m t.order h);
    distinct = Distinct-snoc t.order m f.distinct (elim (Bool-cases (contains m t.order)) [
      | inr absent ↦ absent
      | inl there ↦ absurd (ground (arith, f.found m there, w m, contains_self m s.visited))
    ]);
  }
    where
      member :
          (x : ℕ)
          → (contains x t.order ≡ true) ⊎ (x ≡ m)
          → (contains x s.order ≡ true)
            ⊎ ((contains x s.visited ≡ false)
                × P x
                × All (λ d. contains d t.visited ≡ true) (dependents x))
      member x (inl h) = elim (f.found x h) [
        | inl old ↦ inl old
        | inr (fresh, q, rest) ↦ inr (ground (arith, contains-later x m s.visited), q, rest)
      ]
      member x (inr same) = inr (rw same (new, p, ds))

      settle :
          (x : ℕ)
          → (contains x t.order ≡ true) ⊎ (contains x (m ∷ s.visited) ≡ true)
          → (contains x (t.order ++ m ∷ []) ≡ true) ⊎ (contains x s.visited ≡ true)
      settle x (inl h) = inl (contains-snoc_old x m t.order h)
      settle x (inr h) = elim (contains-cons x m s.visited h) [
        | inl same ↦ inl (rw same (contains-snoc_self m t.order))
        | inr old ↦ inr old
      ]

      known : (x : ℕ) → (contains x t.order ≡ true) ⊎ (x ≡ m) → contains x t.visited ≡ true
      known x (inl h) = f.order_visited x h
      known x (inr same) = rw same (f.visited_kept m (contains_self m s.visited))

  -- The modules of `P` have dependents in `P`.
  module _ (closed : (m : ℕ) → P m → All P (dependents m)) where
    visit_new :
        (visit : ℕ → Search → Option Search) (m : ℕ) (s s' : Search)
        → Visits visit
        → P m
        → Within s.order s.visited
        → Distinct s.order
        → contains m s.visited ≡ false
        → finish dependents m (visit_all visit (dependents m) (mark m s)) ≡ some s'
        → Finds s s' × (contains m s'.visited ≡ true)
    unfolding finish
    visit_new visit m s s' one p w d new e =
        elim (Option-cases (visit_all visit (dependents m) (mark m s))) [
          | inl no_fuel ↦ absurd (ground (arith, e, no_fuel))
          | inr (t, e1) ↦
              let (f, ds) =
                visit_all-Finds visit one (dependents m) (mark m s) t (closed m p)
                  (λ x h. contains-later x m s.visited (w x h)) d e1 in
              let same : s' ≡ push m t = ground (arith, e, e1) in
              rw same
                (pushed-Finds m s t p w new f ds, f.visited_kept m (contains_self m s.visited))
        ]

    pub visit_module-Visits : (fuel : ℕ) → Visits (visit_module dependents fuel)
    unfolding visit_module
    visit_module-Visits zero m s s' p w d e = elim (Bool-cases (contains m s.visited)) [
      | inl old ↦ let same : s' ≡ s = ground arith in rw same (Finds-refl s w d, old)
      | inr new ↦ absurd (ground (arith, e, new))
    ]
    visit_module-Visits (suc fuel) m s s' p w d e = elim (Bool-cases (contains m s.visited)) [
      | inl old ↦ let same : s' ≡ s = ground arith in rw same (Finds-refl s w d, old)
      | inr new ↦
          visit_new (visit_module dependents fuel) m s s' (visit_module-Visits fuel) p w d new
            (rw (new, visit_module) at e)
    ]
