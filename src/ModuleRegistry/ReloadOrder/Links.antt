-- ===== src/ModuleRegistry/ReloadOrder/Links.antt =====
-- The reload order of a registry, from the dependencies that were added to it.
use lunatic.Prelude.{
  ℕ, suc, ◌<◌, ◌≡◌, ◌↔◌, inl, inr, refl, ap, subst, List, [], ◌∷◌, ◌++◌, some, true, arith,
  contains, length, if◌then◌else◌, ◌==◌, ==→eq, Bool-cases, All, All-append,
}
use lunatic.External.ConcurrentMap.{ConcurrentMap}
use lunatic.ModuleRegistry.{ModuleHistory, ModuleRegistry, get_dependents, add_dependency, new}
use lunatic.ModuleRegistry.ReloadOrder.{Search, visit_module, get_reload_order}
use lunatic.Prelude.Members.{Within, contains_self, contains-later, unseen-le-length}
use lunatic.ModuleRegistry.ReloadOrder.Ends.{visit_module-Ends}
use lunatic.ModuleRegistry.ReloadOrder.Reached.{Distinct, Finds, visit_module-Visits}
use lunatic.ModuleRegistry.ReloadOrder.Orders.{After, visit_module-Sorting}

-- `m` and what depends on it, through any number of modules.
pub data Reach (dependents : ℕ → List ℕ) (m : ℕ) : ℕ → Type 0 where
  here : Reach dependents m m
  step : {x y : ℕ} → Reach dependents m x → contains y (dependents x) ≡ true → Reach dependents m y

module _ {M D : Type 0} (histories : ConcurrentMap ModuleHistory M)
    (lists : ConcurrentMap (List ℕ) D) where
  -- Pairs of a module and one that it depends on.
  unfoldable pub add_all : List (ℕ × ℕ) → ModuleRegistry M D → ModuleRegistry M D
  add_all [] r = r
  add_all ((dependent, dependency) ∷ links) r =
      add_all links (add_dependency histories lists dependent dependency r)

  unfoldable pub first_of : List (ℕ × ℕ) → List ℕ
  first_of [] = []
  first_of ((dependent, dependency) ∷ links) = dependent ∷ first_of links

  abbrev Known : List ℕ → ModuleRegistry M D → Type 0
  Known us r = (i : ℕ) → All (λ d. contains d us ≡ true) (get_dependents histories lists i r)

  -- The dependents of one module grow by one that is known; the others stay.
  dependents-add_dependency :
      (a b i : ℕ) (r : ModuleRegistry M D)
      → get_dependents histories lists i (add_dependency histories lists a b r) ≡ (
          if b == i
          then (if contains a (get_dependents histories lists b r)
              then get_dependents histories lists b r
              else get_dependents histories lists b r ++ a ∷ [])
          else get_dependents histories lists i r)
  unfolding add_dependency get_dependents
  dependents-add_dependency a b i r =
      let deps : List ℕ = get_dependents histories lists b r in
      ground (
        arith,
        lists.get-insert b (if contains a deps then deps else deps ++ a ∷ []) r.dependencies i,
      )

  Known-add_dependency :
      (us : List ℕ) (a b : ℕ) (r : ModuleRegistry M D)
      → contains a us ≡ true
      → Known us r
      → Known us (add_dependency histories lists a b r)
  Known-add_dependency us a b r known k = λ i.
      rw (dependents-add_dependency a b i r) (elim (Bool-cases (b == i)) [
        | inr other ↦ rw other (k i)
        | inl same ↦ rw same (elim (Bool-cases (contains a (get_dependents histories lists b r))) [
          | inl there ↦ rw there (k b)
          | inr fresh ↦ rw fresh (All-append _ _ (a ∷ []) (k b) (known, tt))
        ])
      ])

  Known-add_all :
      (us : List ℕ) (links : List (ℕ × ℕ)) (r : ModuleRegistry M D)
      → Within (first_of links) us
      → Known us r
      → Known us (add_all links r)
  unfolding add_all first_of
  Known-add_all us [] r w k = k
  Known-add_all us ((a, b) ∷ links) r w k =
      Known-add_all us links (add_dependency histories lists a b r)
        (λ x h. w x (contains-later x a (first_of links) h))
        (Known-add_dependency us a b r (w a (contains_self a (first_of links))) k)

  dependents-new : (i : ℕ) → get_dependents histories lists i (new histories lists) ≡ []
  unfolding new get_dependents
  dependents-new i = ground (arith, lists.get-empty i)

  Known-new : (us : List ℕ) → Known us (new histories lists)
  Known-new us = λ i. rw (dependents-new i) tt

  length-first_of : (links : List (ℕ × ℕ)) → length (first_of links) ≡ length links
  unfolding first_of
  length-first_of [] = refl
  length-first_of ((a, b) ∷ links) = ap suc (length-first_of links)

  -- The search of a registry whose dependencies are `links`, from `m`.
  searched :
      (links : List (ℕ × ℕ)) (fuel m : ℕ)
      → length links < fuel
      → (s : Search) × (visit_module
            (λ d. get_dependents histories lists d (add_all links (new histories lists)))
            fuel
            m
            (record { order = []; visited = [] })
          ≡ some s)
  searched links fuel m enough =
      let us : List ℕ = m ∷ first_of links in
      let (s, e, kept) =
        visit_module-Ends
          (λ d. get_dependents histories lists d (add_all links (new histories lists))) us
          (λ i h.
            Known-add_all us links (new histories lists)
              (λ x q. contains-later x m (first_of links) q) (Known-new us) i)
          fuel m (record { order = []; visited = [] }) (contains_self m (first_of links))
          (omega (arith, unseen-le-length us [], length-first_of links)) in
      (s, e)

  -- The dependents of a module in the registry.
  abbrev pub in_links : List (ℕ × ℕ) → ℕ → List ℕ
  in_links links d = get_dependents histories lists d (add_all links (new histories lists))

  dependents_reached :
      (dependents : ℕ → List ℕ) (m x : ℕ)
      → Reach dependents m x
      → (ds : List ℕ) → Within ds (dependents x)
      → All (Reach dependents m) ds
  dependents_reached dependents m x r [] w = tt
  dependents_reached dependents m x r (d ∷ ds) w = (
    step r (w d (contains_self d ds)),
    dependents_reached dependents m x r ds (λ y h. w y (contains-later y d ds h)),
  )

  All-contains : (P : ℕ → Type 0) (ds : List ℕ) (x : ℕ) → All P ds → contains x ds ≡ true → P x
  unfolding contains
  All-contains P [] x h c = absurd (ground (arith, c))
  All-contains P (d ∷ ds) x (p, ps) c = elim (Bool-cases (d == x)) [
    | inl same ↦ subst P (==→eq d x same) p
    | inr other ↦ All-contains P ds x ps (ground arith)
  ]

  start : Search
  start = record { order = []; visited = [] }

  ordered_if_reached :
      (dependents : ℕ → List ℕ) (m x : ℕ) (s : Search)
      → Finds dependents (Reach dependents m) start s
      → contains m s.visited ≡ true
      → Reach dependents m x
      → contains x s.order ≡ true
  unfolding contains start
  ordered_if_reached dependents m x s f root here = ground (arith, f.settled m root)
  ordered_if_reached dependents m x s f root (step {x = y} r d) =
      elim (f.found y (ordered_if_reached dependents m y s f root r)) [
        | inl absent ↦ absurd (ground (arith, absent))
        | inr (fresh, reached, ds) ↦
            let seen = All-contains _ (dependents y) x ds d in ground (arith, f.settled x seen)
      ]

  -- Whatever dependencies were added to a new registry, circular ones too, the search ends within
  -- one call more than there are dependencies. Its order holds the module asked for and every module
  -- that depends on it, directly or through others, each once, and no other module.
  pub get_reload_order-Reach :
      (links : List (ℕ × ℕ)) (fuel m : ℕ)
      → length links < fuel
      → (order : List ℕ) × (get_reload_order histories lists fuel m
            (add_all links (new histories lists))
          ≡ some order)
        × Distinct order
        × ((x : ℕ) → (contains x order ≡ true) ↔ Reach (in_links links) m x)
  unfolding get_reload_order contains start
  get_reload_order-Reach links fuel m enough =
      let (s, e) = searched links fuel m enough in
      let (f, root) =
        visit_module-Visits (in_links links) (Reach (in_links links) m)
          (λ x r. dependents_reached (in_links links) m x r (in_links links x) (λ y h. h)) fuel m
          start s here (λ x h. h) tt e in
      (
        s.order,
        rw (e, get_reload_order) refl,
        f.distinct,
        λ x. (
          λ h. elim (f.found x h) [
            | inl absent ↦ absurd (ground (arith, absent))
            | inr (fresh, reached, ds) ↦ reached
          ],
          ordered_if_reached (in_links links) m x s f root,
        ),
      )

  -- Where some rank falls from every module to the modules that depend on it, so that no dependency
  -- is circular, every module stands in the order behind all that depend on it.
  pub get_reload_order-After :
      (links : List (ℕ × ℕ)) (fuel m : ℕ) (rank : ℕ → ℕ)
      → length links < fuel
      → ((x : ℕ) → All (λ d. rank d < rank x) (in_links links x))
      → (order : List ℕ) × (get_reload_order histories lists fuel m
            (add_all links (new histories lists))
          ≡ some order)
        × (contains m order ≡ true)
        × After (in_links links) [] order
  unfolding get_reload_order contains start
  get_reload_order-After links fuel m rank enough falls =
      let (s, e) = searched links fuel m enough in
      let (f, there) =
        visit_module-Sorting (in_links links) rank falls fuel (suc (rank m)) m start s (omega arith)
          (λ x h. absurd (ground (arith, h))) tt e in
      (s.order, rw (e, get_reload_order) refl, there, f.sorted)
