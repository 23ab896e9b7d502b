-- ===== src/Reload/Targets.antt =====
-- The targets of a reload: the affected processes, sorted and each once.
use lunatic.Prelude.{
  ℕ, ◌<◌, ◌≡◌, inl, inr, refl, List, [], ◌∷◌, arith, contains, count, if◌then◌else◌, ◌==◌, ltb,
  Bool-cases, All,
}
use lunatic.ModuleRegistry.{insert_sorted, sort_dedup}

abbrev Increasing : List ℕ → Type 0
Increasing [] = Unit
Increasing (x ∷ xs) = All (λ y. x < y) xs × Increasing xs

All-above : (a b : ℕ) (xs : List ℕ) → a < b → All (λ y. b < y) xs → All (λ y. a < y) xs
All-above a b [] h hs = tt
All-above a b (x ∷ xs) h (hx, hs) = (omega arith, All-above a b xs h hs)

above-count : (a : ℕ) (xs : List ℕ) → All (λ y. a < y) xs → count a xs ≡ 0
unfolding count
above-count a [] h = refl
above-count a (x ∷ xs) (h, hs) = ground (arith, h, above-count a xs hs)

above-insert_sorted :
    (b a : ℕ) (xs : List ℕ) → b < a → All (λ y. b < y) xs → All (λ y. b < y) (insert_sorted a xs)
unfolding insert_sorted
above-insert_sorted b a [] h hs = (h, tt)
above-insert_sorted b a (x ∷ xs) h (hx, hs) = elim (Bool-cases (ltb a x)) [
  | inl less ↦ rw (less, insert_sorted) (h, (hx, hs))
  | inr more ↦
      rw (more, insert_sorted)
        (elim (Bool-cases (a == x)) [
          | inl same ↦ rw same (hx, hs)
          | inr other ↦ rw other (hx, above-insert_sorted b a xs h hs)
        ])
]

insert_sorted-Increasing : (a : ℕ) (xs : List ℕ) → Increasing xs → Increasing (insert_sorted a xs)
unfolding insert_sorted
insert_sorted-Increasing a [] h = (tt, tt)
insert_sorted-Increasing a (x ∷ xs) (hx, hs) = elim (Bool-cases (ltb a x)) [
  | inl less ↦
      rw (less, insert_sorted) ((ground arith, All-above a x xs (ground arith) hx), (hx, hs))
  | inr more ↦
      rw (more, insert_sorted)
        (elim (Bool-cases (a == x)) [
          | inl same ↦ rw same (hx, hs)
          | inr other ↦
              rw other
                (above-insert_sorted x a xs (ground arith) hx, insert_sorted-Increasing a xs hs)
        ])
]

count-insert_sorted :
    (x a : ℕ) (xs : List ℕ)
    → Increasing xs
    → count x (insert_sorted a xs) ≡ (if a == x then 1 else count x xs)
unfolding insert_sorted count
count-insert_sorted x a [] h = refl
count-insert_sorted x a (y ∷ ys) (hy, hs) = ground (
  arith,
  above-count y ys hy,
  count-insert_sorted x a ys hs,
  λ (less : a < y). above-count a ys (All-above a y ys less hy),
)

sort_dedup-Increasing : (xs : List ℕ) → Increasing (sort_dedup xs)
unfolding sort_dedup
sort_dedup-Increasing [] = tt
sort_dedup-Increasing (x ∷ xs) =
    insert_sorted-Increasing x (sort_dedup xs) (sort_dedup-Increasing xs)

pub count-sort_dedup :
    (x : ℕ) (xs : List ℕ) → count x (sort_dedup xs) ≡ (if contains x xs then 1 else 0)
unfolding sort_dedup contains count
count-sort_dedup x [] = refl
count-sort_dedup x (y ∷ xs) = ground (
  arith,
  count-insert_sorted x y (sort_dedup xs) (sort_dedup-Increasing xs),
  count-sort_dedup x xs,
)
