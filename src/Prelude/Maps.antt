-- ===== src/Prelude/Maps.antt =====
-- Association lists keyed by numbers: the standard library's `HashMap<u64, V>`, one key at a time.
-- The first binding of a key is the one that counts.
use Prim.Native.Nat.{ℕ, suc, ◌+◌}
use mathlib.Core.Path.{◌≡◌, refl, ap}
use mathlib.Core.Logic.{inl, inr}
use mathlib.Core.List.{List, [], ◌∷◌}
use mathlib.Core.Option.{Option, none, some}
use native.Mathlib.Omega.{arith}
use lunatic.Prelude.Tests.{if◌then◌else◌, ◌==◌, is_some, Bool-cases, ==→eq}

module _ {ℓ} {V : Type ℓ} where
  abbrev pub get : List (ℕ × V) → ℕ → Option V
  get [] k = none
  get ((j, v) ∷ m) k = if j == k then some v else get m k

  abbrev pub insert : ℕ → V → List (ℕ × V) → List (ℕ × V)
  insert k v m = (k, v) ∷ m

  abbrev pub remove : ℕ → List (ℕ × V) → List (ℕ × V)
  remove k [] = []
  remove k ((j, v) ∷ m) = let rest = remove k m in if j == k then rest else (j, v) ∷ rest

  -- The number of keys.
  abbrev pub size : List (ℕ × V) → ℕ
  size [] = 0
  size ((j, v) ∷ m) = let rest = size m in if is_some (get m j) then rest else suc rest

  -- An insertion that replaces, so that a key stands once.
  abbrev pub put : ℕ → V → List (ℕ × V) → List (ℕ × V)
  put k v [] = (k, v) ∷ []
  put k v ((j, w) ∷ m) = let rest = put k v m in if j == k then (k, v) ∷ m else (j, w) ∷ rest

  pub get-put :
      (k : ℕ) (v : V) (m : List (ℕ × V)) (j : ℕ)
      → get (put k v m) j ≡ (if k == j then some v else get m j)
  get-put k v [] j = refl
  get-put k v ((i, w) ∷ m) j = ground (arith, get-put k v m j)

  pub get-remove :
      (k : ℕ) (m : List (ℕ × V)) (j : ℕ) → get (remove k m) j ≡ (if k == j then none else get m j)
  get-remove k [] j = ground arith
  get-remove k ((i, v) ∷ m) j = ground (arith, get-remove k m j)

  pub get-insert :
      (k : ℕ) (v : V) (m : List (ℕ × V)) (j : ℕ)
      → get (insert k v m) j ≡ (if k == j then some v else get m j)
  get-insert k v m j = refl

  pub size-insert_new :
      (k : ℕ) (v : V) (m : List (ℕ × V)) → get m k ≡ none → size (insert k v m) ≡ suc (size m)
  size-insert_new k v m h = ground arith

  pub size-insert_old :
      (k : ℕ) (v w : V) (m : List (ℕ × V)) → get m k ≡ some w → size (insert k v m) ≡ size m
  size-insert_old k v w m h = ground arith

  size-remove_counts :
      (k : ℕ) (m : List (ℕ × V)) → size (remove k m) + (if is_some (get m k) then 1 else 0) ≡ size m
  size-remove_counts k [] = refl
  size-remove_counts k ((j, v) ∷ m) = elim (Bool-cases (j == k)) [
    | inl hit ↦ rw hit (rw (ap (get m) (==→eq j k hit)) (ground (arith, size-remove_counts k m)))
    | inr miss ↦ ground (arith, size-remove_counts k m, get-remove k m j)
  ]

  pub size-remove :
      (k : ℕ) (v : V) (m : List (ℕ × V)) → get m k ≡ some v → suc (size (remove k m)) ≡ size m
  size-remove k v m h = ground (arith, size-remove_counts k m)
