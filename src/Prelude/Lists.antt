-- ===== src/Prelude/Lists.antt =====
-- Lists measured and indexed by native numbers, with the operations of Rust's sequences.
use Prim.Native.Nat.{ℕ, zero, suc, ◌+◌, ◌≤◌}
use mathlib.Core.Path.{◌≡◌, refl, sym, ap, ◌∙◌}
use mathlib.Core.Logic.{◌≢◌, ◌⊎◌, inl, inr}
use mathlib.Core.Bool.{Bool, true, false, ◌||◌}
use mathlib.Core.List.{List, [], ◌∷◌, ◌++◌}
use mathlib.Core.Option.{Option, none, some}
use native.Mathlib.Omega.{arith}
use lunatic.Prelude.Tests.{if◌then◌else◌, ◌==◌, Bool-cases, Option-cases}

-- Membership in a list of numbers (`contains`).
unfoldable pub contains : ℕ → List ℕ → Bool
contains a [] = false
contains a (x ∷ xs) = x == a || contains a xs

-- How often a number stands in a list.
unfoldable pub count : ℕ → List ℕ → ℕ
count a [] = 0
count a (x ∷ xs) = let rest = count a xs in if x == a then suc rest else rest

pub count-append : (a : ℕ) (xs ys : List ℕ) → count a (xs ++ ys) ≡ count a xs + count a ys
unfolding count
count-append a [] ys = omega arith
count-append a (x ∷ xs) ys = ground (arith, count-append a xs ys)

module _ {ℓ} {A : Type ℓ} where
  abbrev pub length : List A → ℕ
  length [] = 0
  length (x ∷ xs) = suc (length xs)

  abbrev pub reverse : List A → List A
  reverse [] = []
  reverse (x ∷ xs) = reverse xs ++ x ∷ []

  abbrev pub get_elem? : List A → ℕ → Option A
  get_elem? [] i = none
  get_elem? (x ∷ xs) zero = some x
  get_elem? (x ∷ xs) (suc i) = get_elem? xs i

  -- A write out of bounds changes nothing.
  abbrev pub set : List A → ℕ → A → List A
  set [] i v = []
  set (x ∷ xs) zero v = v ∷ xs
  set (x ∷ xs) (suc i) v = x ∷ set xs i v

  abbrev pub take : ℕ → List A → List A
  take zero xs = []
  take (suc n) [] = []
  take (suc n) (x ∷ xs) = x ∷ take n xs

  abbrev pub drop : ℕ → List A → List A
  drop zero xs = xs
  drop (suc n) [] = []
  drop (suc n) (x ∷ xs) = drop n xs

  pub drop-nil : (k : ℕ) → drop k [] ≡ []
  drop-nil zero = refl
  drop-nil (suc k) = refl

  -- `VecDeque::insert`, at an index that is at most the length.
  abbrev pub insert_at : ℕ → A → List A → List A
  insert_at zero v xs = v ∷ xs
  insert_at (suc i) v [] = v ∷ []
  insert_at (suc i) v (x ∷ xs) = x ∷ insert_at i v xs

  pub length-append : (xs ys : List A) → length (xs ++ ys) ≡ length xs + length ys
  length-append [] ys = omega arith
  length-append (x ∷ xs) ys = omega (arith, length-append xs ys)

  pub length-insert_at : (i : ℕ) (v : A) (xs : List A) → length (insert_at i v xs) ≡ suc (length xs)
  length-insert_at zero v xs = refl
  length-insert_at (suc i) v [] = refl
  length-insert_at (suc i) v (x ∷ xs) = ap suc (length-insert_at i v xs)

  -- What is appended later does not move an inserted element.
  pub insert_at-append :
      (i : ℕ) (v : A) (xs ys : List A)
      → i ≤ length xs
      → insert_at i v (xs ++ ys) ≡ insert_at i v xs ++ ys
  insert_at-append zero v xs ys h = refl
  insert_at-append (suc i) v [] ys h = absurd (omega arith)
  insert_at-append (suc i) v (x ∷ xs) ys h = ap (◌∷◌ x) (insert_at-append i v xs ys (omega arith))

  pub insert_at-length : (v : A) (xs : List A) → insert_at (length xs) v xs ≡ xs ++ v ∷ []
  insert_at-length v [] = refl
  insert_at-length v (x ∷ xs) = ap (◌∷◌ x) (insert_at-length v xs)

  -- The first element that passes, with the others in their order (`position` and `remove`).
  abbrev pub extract : (A → Bool) → List A → Option (A × List A)
  extract p [] = none
  extract p (x ∷ xs) =
      let rest : Option (A × List A) = elim (extract p xs) [
        | none ↦ none
        | some (y, ys) ↦ some (y, x ∷ ys)
      ] in
      if p x then some (x, xs) else rest

module _ {ℓ} {A : Type ℓ} where
  pub length-set : (xs : List A) (i : ℕ) (v : A) → length (set xs i v) ≡ length xs
  length-set [] i v = refl
  length-set (x ∷ xs) zero v = refl
  length-set (x ∷ xs) (suc i) v = ap suc (length-set xs i v)

  -- A write at an index that holds something is read back.
  pub get_elem?-set_self :
      (xs : List A) (i : ℕ) (v : A) {w : A}
      → get_elem? xs i ≡ some w
      → get_elem? (set xs i v) i ≡ some v
  get_elem?-set_self [] i v h = cc
  get_elem?-set_self (x ∷ xs) zero v h = refl
  get_elem?-set_self (x ∷ xs) (suc i) v h = get_elem?-set_self xs i v h

  pub get_elem?-set_ne :
      (xs : List A) (i j : ℕ) (v : A) → i ≢ j → get_elem? (set xs i v) j ≡ get_elem? xs j
  get_elem?-set_ne [] i j v h = refl
  get_elem?-set_ne (x ∷ xs) zero zero v h = absurd (h refl)
  get_elem?-set_ne (x ∷ xs) zero (suc j) v h = refl
  get_elem?-set_ne (x ∷ xs) (suc i) zero v h = refl
  get_elem?-set_ne (x ∷ xs) (suc i) (suc j) v h = get_elem?-set_ne xs i j v (λ e. h (ap suc e))

  pub set-set : (xs : List A) (i : ℕ) (v w : A) → set (set xs i v) i w ≡ set xs i w
  set-set [] i v w = refl
  set-set (x ∷ xs) zero v w = refl
  set-set (x ∷ xs) (suc i) v w = ap (◌∷◌ x) (set-set xs i v w)

  pub set_get : (xs : List A) (i : ℕ) (v : A) → get_elem? xs i ≡ some v → set xs i v ≡ xs
  set_get [] i v h = refl
  set_get (x ∷ xs) zero v h = ground arith
  set_get (x ∷ xs) (suc i) v h = ap (◌∷◌ x) (set_get xs i v h)

module _ {ℓ} {A : Type ℓ} where
  -- `ys` with `x` at some place is `xs`.
  abbrev pub Splits : List A → A → List A → Type ℓ
  Splits xs x ys = (us vs : List A) × (xs ≡ us ++ x ∷ vs) × (ys ≡ us ++ vs)

  pub Splits-cons :
      {xs : List A} {x : A} {ys : List A} (y : A) → Splits xs x ys → Splits (y ∷ xs) x (y ∷ ys)
  Splits-cons y (us, vs, e, e') = (y ∷ us, vs, ap (◌∷◌ y) e, ap (◌∷◌ y) e')

  pub insert_at-Splits : (i : ℕ) (v : A) (xs : List A) → Splits (insert_at i v xs) v xs
  insert_at-Splits zero v xs = ([], xs, refl, refl)
  insert_at-Splits (suc i) v [] = ([], [], refl, refl)
  insert_at-Splits (suc i) v (x ∷ xs) = Splits-cons x (insert_at-Splits i v xs)

  extracted_later :
      (p : A → Bool) (x : A) (xs : List A) (y : A) (ys : List A)
      → ((z : A) (zs : List A) → extract p xs ≡ some (z, zs) → Splits xs z zs × (p z ≡ true))
      → p x ≡ false
      → (extract p xs ≡ none) ⊎ ((r : A × List A) × (extract p xs ≡ some r))
      → extract p (x ∷ xs) ≡ some (y, ys)
      → Splits (x ∷ xs) y ys × (p y ≡ true)
  extracted_later p x xs y ys ih miss (inl e) h = ground arith
  extracted_later p x xs y ys ih miss (inr ((z, zs), e)) h =
      let first : z ≡ y = ground arith in
      let rest : ys ≡ x ∷ zs = ground arith in
      let (s, t) = ih z zs e in rw rest (rw (← first) (Splits-cons x s, t))

  -- What `extract` takes out passes, and stood where the rest closes up.
  pub extract-Splits :
      (p : A → Bool) (xs : List A) (y : A) (ys : List A)
      → extract p xs ≡ some (y, ys)
      → Splits xs y ys × (p y ≡ true)
  extract-Splits p [] y ys h = cc
  extract-Splits p (x ∷ xs) y ys h = elim (Bool-cases (p x)) [
    | inl hit ↦
        let first : x ≡ y = ground arith in
        let rest : xs ≡ ys = ground arith in
        (([], xs, ap (λ (z : A). z ∷ xs) first, sym rest), ap p (sym first) ∙ hit)
    | inr miss ↦
        extracted_later p x xs y ys (extract-Splits p xs) miss (Option-cases (extract p xs)) h
  ]

  pub length-Splits :
      {xs : List A} {x : A} {ys : List A} → Splits xs x ys → length xs ≡ suc (length ys)
  length-Splits {x} (us, vs, e, e') =
      ap length e ∙ omega (arith, length-append us (x ∷ vs), length-append us vs, ap length e')

module _ {ℓ κ} {A : Type ℓ} where
  abbrev pub All : (A → Type κ) → List A → Type κ
  All P [] = Unit
  All P (x ∷ xs) = P x × All P xs

  pub All-append : (P : A → Type κ) (xs ys : List A) → All P xs → All P ys → All P (xs ++ ys)
  All-append P [] ys hx hy = hy
  All-append P (x ∷ xs) ys hx hy = (hx.0, All-append P xs ys hx.1 hy)
