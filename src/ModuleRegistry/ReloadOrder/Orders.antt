-- ===== src/ModuleRegistry/ReloadOrder/Orders.antt =====
-- Where no module depends on itself through others, the dependents of a module stand before it.
use lunatic.Prelude.{
  ℕ, zero, suc, ◌<◌, ◌≤◌, ◌≡◌, ◌⊎◌, inl, inr, List, [], ◌∷◌, ◌++◌, Option, some, true, arith,
  contains, Bool-cases, Option-cases, All,
}
use lunatic.ModuleRegistry.ReloadOrder.{Search, mark, push, visit_all, finish, visit_module}
use lunatic.Prelude.Members.{Within, contains-cons, contains-snoc_old, contains-snoc_self}

module _ (dependents : ℕ → List ℕ) where
  -- Each module of the list stands behind its dependents, which are in `seen` or before it.
  abbrev pub After : List ℕ → List ℕ → Type 0
  After seen [] = Unit
  After seen (x ∷ xs) = All (λ d. contains d seen ≡ true) (dependents x) × After (x ∷ seen) xs

  All-Within :
      (ds xs ys : List ℕ)
      → Within xs ys
      → All (λ d. contains d xs ≡ true) ds
      → All (λ d. contains d ys ≡ true) ds
  All-Within [] xs ys w h = tt
  All-Within (d ∷ ds) xs ys w (h, hs) = (w d h, All-Within ds xs ys w hs)

  After-snoc :
      (seen xs : List ℕ) (m : ℕ)
      → After seen xs
      → All (λ d. (contains d xs ≡ true) ⊎ (contains d seen ≡ true)) (dependents m)
      → After seen (xs ++ m ∷ [])
  unfolding contains
  After-snoc seen [] m a ds = (gather (dependents m) ds, tt)
    where
      gather :
          (es : List ℕ)
          → All (λ d. (contains d [] ≡ true) ⊎ (contains d seen ≡ true)) es
          → All (λ d. contains d seen ≡ true) es
      gather [] q = tt
      gather (e ∷ es) (q, qs) = (ground (arith, q), gather es qs)
  After-snoc seen (x ∷ xs) m (own, a) ds =
      (own, After-snoc (x ∷ seen) xs m a (shift (dependents m) ds))
    where
      shift :
          (es : List ℕ)
          → All (λ d. (contains d (x ∷ xs) ≡ true) ⊎ (contains d seen ≡ true)) es
          → All (λ d. (contains d xs ≡ true) ⊎ (contains d (x ∷ seen) ≡ true)) es
      shift [] q = tt
      shift (e ∷ es) (q, qs) = (ground (arith, q), shift es qs)

  module _ (rank : ℕ → ℕ) where
    -- What is being visited has at least rank `bound`.
    abbrev pub Above : ℕ → Search → Type 0
    Above bound s =
        (x : ℕ) → contains x s.visited ≡ true → (contains x s.order ≡ true) ⊎ (bound ≤ rank x)

    pub record Sorts (s s' : Search) : Type 0 where
      pub order_kept : Within s.order s'.order
      pub settled :
          (x : ℕ)
          → contains x s'.visited ≡ true
          → (contains x s'.order ≡ true) ⊎ (contains x s.visited ≡ true)
      pub sorted : After [] s'.order

    abbrev pub Sorting : (ℕ → Search → Option Search) → Type 0
    Sorting visit =
        (bound m : ℕ) (s s' : Search)
        → rank m < bound
        → Above bound s
        → After [] s.order
        → visit m s ≡ some s'
        → Sorts s s' × (contains m s'.order ≡ true)

    Above-Sorts : (bound : ℕ) (s s' : Search) → Sorts s s' → Above bound s → Above bound s'
    Above-Sorts bound s s' f a = λ x h. ground (arith, f.settled x h, a x, f.order_kept x)

    visit_all-Sorts :
        (visit : ℕ → Search → Option Search)
        → Sorting visit
        → (bound : ℕ) (ds : List ℕ) (s s' : Search) → All (λ d. rank d < bound) ds
        → Above bound s
        → After [] s.order
        → visit_all visit ds s ≡ some s'
        → Sorts s s' × All (λ d. contains d s'.order ≡ true) ds
    unfolding visit_all
    visit_all-Sorts visit one bound [] s s' low a q e =
        let same : s' ≡ s = ground arith in
        rw same (record { order_kept = λ x h. h; settled = λ x h. inr h; sorted = q }, tt)
    visit_all-Sorts visit one bound (d ∷ ds) s s' (l, low) a q e = elim (Option-cases (visit d s)) [
      | inl no_fuel ↦ absurd (ground (arith, e, no_fuel))
      | inr (t, e1) ↦
          let (f, there) = one bound d s t l a q e1 in
          let (g, rest) =
            visit_all-Sorts visit one bound ds t s' low (Above-Sorts bound s t f a) f.sorted
              (rw (e1, visit_all) at e) in
          (
            record {
              order_kept = λ x h. g.order_kept x (f.order_kept x h);
              settled = λ x h. ground (arith, g.settled x h, f.settled x, g.order_kept x);
              sorted = g.sorted;
            },
            (g.order_kept d there, rest),
          )
    ]

    -- A rank that falls from a module to its dependents.
    module _ (falls : (m : ℕ) → All (λ d. rank d < rank m) (dependents m)) where
      marked-Above :
          (bound m : ℕ) (s : Search) → rank m < bound → Above bound s → Above (rank m) (mark m s)
      marked-Above bound m s l a = λ x h. elim (contains-cons x m s.visited h) [
        | inl same ↦ inr (rw same (omega arith))
        | inr old ↦ elim (a x old) [ inl k ↦ inl k | inr k ↦ inr (omega arith) ]
      ]

      pushed-Sorts :
          (m : ℕ) (s t : Search)
          → Sorts (mark m s) t
          → All (λ d. contains d t.order ≡ true) (dependents m)
          → Sorts s (push m t)
      pushed-Sorts m s t f ds = record {
        order_kept = λ x h. contains-snoc_old x m t.order (f.order_kept x h);
        settled = λ x h. settle x (f.settled x h);
        sorted = After-snoc [] t.order m f.sorted (left (dependents m) ds);
      }
        where
          settle :
              (x : ℕ)
              → (contains x t.order ≡ true) ⊎ (contains x (m ∷ s.visited) ≡ true)
              → (contains x (t.order ++ m ∷ []) ≡ true) ⊎ (contains x s.visited ≡ true)
          settle x (inl h) = inl (contains-snoc_old x m t.order h)
          settle x (inr h) = elim (contains-cons x m s.visited h) [
            | inl same ↦ inl (rw same (contains-snoc_self m t.order))
            | inr old ↦ inr old
          ]

          left :
              (es : List ℕ)
              → All (λ d. contains d t.order ≡ true) es
              → All (λ d. (contains d t.order ≡ true) ⊎ (contains d [] ≡ true)) es
          left [] h = tt
          left (e ∷ es) (h, hs) = (inl h, left es hs)

      visit_new :
          (visit : ℕ → Search → Option Search) (bound m : ℕ) (s s' : Search)
          → Sorting visit
          → rank m < bound
          → Above bound s
          → After [] s.order
          → finish dependents m (visit_all visit (dependents m) (mark m s)) ≡ some s'
          → Sorts s s' × (contains m s'.order ≡ true)
      unfolding finish
      visit_new visit bound m s s' one l a q e =
          elim (Option-cases (visit_all visit (dependents m) (mark m s))) [
            | inl no_fuel ↦ absurd (ground (arith, e, no_fuel))
            | inr (t, e1) ↦
                let (f, ds) =
                  visit_all-Sorts visit one (rank m) (dependents m) (mark m s) t (falls m)
                    (marked-Above bound m s l a) q e1 in
                let same : s' ≡ push m t = ground (arith, e, e1) in
                rw same (pushed-Sorts m s t f ds, contains-snoc_self m t.order)
          ]

      already :
          (bound m : ℕ) (s s' : Search)
          → rank m < bound
          → Above bound s
          → After [] s.order
          → contains m s.visited ≡ true
          → s' ≡ s
          → Sorts s s' × (contains m s'.order ≡ true)
      already bound m s s' l a q old same = rw same (
        record { order_kept = λ x h. h; settled = λ x h. inr h; sorted = q },
        ground (arith, a m old),
      )

      pub visit_module-Sorting : (fuel : ℕ) → Sorting (visit_module dependents fuel)
      unfolding visit_module
      visit_module-Sorting zero bound m s s' l a q e = elim (Bool-cases (contains m s.visited)) [
        | inl old ↦ already bound m s s' l a q old (ground arith)
        | inr new ↦ absurd (ground (arith, e, new))
      ]
      visit_module-Sorting (suc fuel) bound m s s' l a q e =
          elim (Bool-cases (contains m s.visited)) [
            | inl old ↦ already bound m s s' l a q old (ground arith)
            | inr new ↦
                visit_new (visit_module dependents fuel) bound m s s' (visit_module-Sorting fuel) l
                  a q (rw (new, visit_module) at e)
          ]
