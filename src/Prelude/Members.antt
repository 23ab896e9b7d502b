-- ===== src/Prelude/Members.antt =====
-- Lists of numbers as sets, and how many of a list a set leaves out.
use lunatic.Prelude.{
  ℕ, suc, ◌+◌, ◌≤◌, ◌≡◌, ◌⊎◌, refl, List, [], ◌∷◌, ◌++◌, true, false, ◌||◌, arith, contains, length,
  if◌then◌else◌, ==_refl,
}

pub contains-append :
    (x : ℕ) (xs ys : List ℕ) → contains x (xs ++ ys) ≡ (contains x xs || contains x ys)
unfolding contains
contains-append x [] ys = refl
contains-append x (y ∷ xs) ys = ground (arith, contains-append x xs ys)

pub contains_self : (x : ℕ) (xs : List ℕ) → contains x (x ∷ xs) ≡ true
unfolding contains
contains_self x xs = ground (arith, ==_refl x)

pub contains-cons :
    (x y : ℕ) (xs : List ℕ) → contains x (y ∷ xs) ≡ true → (x ≡ y) ⊎ (contains x xs ≡ true)
unfolding contains
contains-cons x y xs h = ground arith

pub contains-later : (x y : ℕ) (xs : List ℕ) → contains x xs ≡ true → contains x (y ∷ xs) ≡ true
unfolding contains
contains-later x y xs h = ground arith

pub contains-snoc :
    (x m : ℕ) (xs : List ℕ) → contains x (xs ++ m ∷ []) ≡ true → (contains x xs ≡ true) ⊎ (x ≡ m)
unfolding contains
contains-snoc x m xs h = ground (arith, contains-append x xs (m ∷ []))

pub contains-snoc_old :
    (x m : ℕ) (xs : List ℕ) → contains x xs ≡ true → contains x (xs ++ m ∷ []) ≡ true
unfolding contains
contains-snoc_old x m xs h = ground (arith, contains-append x xs (m ∷ []))

pub contains-snoc_self : (m : ℕ) (xs : List ℕ) → contains m (xs ++ m ∷ []) ≡ true
unfolding contains
contains-snoc_self m xs = ground (arith, contains-append m xs (m ∷ []), ==_refl m)

abbrev pub Within : List ℕ → List ℕ → Type 0
Within xs ys = (x : ℕ) → contains x xs ≡ true → contains x ys ≡ true

-- How many of the first list are not in the second.
unfoldable pub unseen : List ℕ → List ℕ → ℕ
unseen [] vs = 0
unseen (u ∷ us) vs = (if contains u vs then 0 else 1) + unseen us vs

pub unseen-Within : (us vs ws : List ℕ) → Within vs ws → unseen us ws ≤ unseen us vs
unfolding unseen
unseen-Within [] vs ws h = omega arith
unseen-Within (u ∷ us) vs ws h = ground (arith, h u, unseen-Within us vs ws h)

pub unseen-mark :
    (us vs : List ℕ) (m : ℕ)
    → contains m us ≡ true
    → contains m vs ≡ false
    → suc (unseen us (m ∷ vs)) ≤ unseen us vs
unfolding unseen contains
unseen-mark [] vs m h new = ground arith
unseen-mark (u ∷ us) vs m h new =
    let fewer = unseen-Within us vs (m ∷ vs) (λ x. contains-later x m vs) in
    ground (arith, unseen-mark us vs m, fewer, ==_refl m)

pub unseen-le-length : (us vs : List ℕ) → unseen us vs ≤ length us
unfolding unseen
unseen-le-length [] vs = omega arith
unseen-le-length (u ∷ us) vs = ground (arith, unseen-le-length us vs)
