-- ===== src/ModuleRegistry/History.antt =====
-- The version list of a module: numbers in order, look-ups, and the processes on each version.
use lunatic.Prelude.{
  ◌≢◌, ℕ, suc, ◌+◌, ◌≤◌, ◌<◌, ◌≡◌, refl, ap, ◌⊎◌, inl, inr, List, [], ◌∷◌, ◌++◌, none, some, Bool,
  true, false, not, ◌&&◌, ◌||◌, arith, is_some, if◌then◌else◌, ◌==◌, ==→eq, Bool-cases,
}
use lunatic.ModuleRegistry.{
  ProcessKey, ModuleVersion, key_eq, contains_key, insert_key, remove_key, find_version,
  update_version, any_contains,
}

-- The version numbers rise along the list, from `low` on, and stay below `high`.
abbrev pub Ascending : ℕ → ℕ → List ModuleVersion → Type 0
Ascending low high [] = low ≤ high
Ascending low high (v ∷ vs) = (low ≤ v.version) × Ascending (suc v.version) high vs

-- On how many versions a process is registered.
unfoldable pub registrations : ProcessKey → List ModuleVersion → ℕ
registrations k [] = 0
registrations k (v ∷ vs) = (if contains_key k v.processes then 1 else 0) + registrations k vs

-- Whether a process is registered on version `n`.
unfoldable pub runs : ProcessKey → ℕ → List ModuleVersion → Bool
unfolding find_version
runs k n vs = elim (find_version n vs) [ none ↦ false | some v ↦ contains_key k v.processes ]

pub Ascending-mono :
    (low low' high : ℕ) (vs : List ModuleVersion)
    → low' ≤ low
    → Ascending low high vs
    → Ascending low' high vs
Ascending-mono low low' high [] h a = omega arith
Ascending-mono low low' high (v ∷ vs) h a = (omega arith, a.1)

pub Ascending-le : (low high : ℕ) (vs : List ModuleVersion) → Ascending low high vs → low ≤ high
Ascending-le low high [] a = a
Ascending-le low high (v ∷ vs) a = omega (arith, Ascending-le (suc v.version) high vs a.1)

pub Ascending-append :
    (low high : ℕ) (vs : List ModuleVersion) (v : ModuleVersion)
    → v.version ≡ high
    → Ascending low high vs
    → Ascending low (suc high) (vs ++ v ∷ [])
Ascending-append low high [] v e a = (omega arith, omega arith)
Ascending-append low high (w ∷ vs) v e a = (a.0, Ascending-append (suc w.version) high vs v e a.1)

pub Ascending-update :
    (low high n : ℕ) (f : List ProcessKey → List ProcessKey) (vs : List ModuleVersion)
    → Ascending low high vs
    → Ascending low high (update_version n f vs)
unfolding update_version
Ascending-update low high n f [] a = a
Ascending-update low high n f (v ∷ vs) a =
    ground (arith, Ascending-update (suc v.version) high n f vs a.1)

-- A number below the list is not found.
pub find_below :
    (low high n : ℕ) (vs : List ModuleVersion)
    → Ascending low high vs
    → n < low
    → find_version n vs ≡ none
unfolding find_version
find_below low high n [] a h = refl
find_below low high n (v ∷ vs) a h = ground (arith, find_below (suc v.version) high n vs a.1)

pub find-append_some :
    (n : ℕ) (vs : List ModuleVersion) (v : ModuleVersion)
    → is_some (find_version n vs) ≡ true
    → is_some (find_version n (vs ++ v ∷ [])) ≡ true
unfolding find_version
find-append_some n [] v h = ground arith
find-append_some n (w ∷ vs) v h = ground (arith, find-append_some n vs v)

pub find-update :
    (n m : ℕ) (f : List ProcessKey → List ProcessKey) (vs : List ModuleVersion)
    → is_some (find_version n (update_version m f vs)) ≡ is_some (find_version n vs)
unfolding find_version update_version
find-update n m f [] = refl
find-update n m f (v ∷ vs) = ground (arith, find-update n m f vs)

pub key_eq→eq : (a b : ProcessKey) → key_eq a b ≡ true → a ≡ b
key_eq→eq a b h = ground arith

pub key_eq_refl : (a : ProcessKey) → key_eq a a ≡ true
key_eq_refl a = ground arith

pub contains-insert :
    (k p : ProcessKey) (ps : List ProcessKey)
    → contains_key k (insert_key p ps) ≡ (key_eq p k || contains_key k ps)
unfolding insert_key
contains-insert k p ps = elim (Bool-cases (key_eq p k)) [
  | inl same ↦ ground (arith, ap (λ (q : ProcessKey). contains_key q ps) (key_eq→eq p k same))
  | inr other ↦ ground arith
]

pub contains-remove :
    (k p : ProcessKey) (ps : List ProcessKey)
    → contains_key k (remove_key p ps) ≡ (not (key_eq p k) && contains_key k ps)
unfolding contains_key remove_key
contains-remove k p [] = ground arith
contains-remove k p (q ∷ ps) = ground (arith, contains-remove k p ps)

pub registrations-append :
    (k : ProcessKey) (vs : List ModuleVersion) (v : ModuleVersion)
    → v.processes ≡ []
    → registrations k (vs ++ v ∷ []) ≡ registrations k vs
unfolding registrations contains_key
registrations-append k [] v e = rw e refl
registrations-append k (w ∷ vs) v e = omega (arith, registrations-append k vs v e)

pub registrations_absent :
    (k : ProcessKey) (vs : List ModuleVersion) → any_contains k vs ≡ false → registrations k vs ≡ 0
unfolding registrations any_contains
registrations_absent k [] h = refl
registrations_absent k (v ∷ vs) h = ground (arith, registrations_absent k vs)

-- An update of version `n` changes what runs there, and nothing on the other versions.
pub runs-update :
    (k : ProcessKey) (n m : ℕ) (f : List ProcessKey → List ProcessKey) (vs : List ModuleVersion)
    → runs k m (update_version n f vs) ≡ (
        if n == m
        then elim (find_version m vs) [ none ↦ false | some v ↦ contains_key k (f v.processes) ]
        else runs k m vs)
unfolding runs update_version
runs-update k n m f [] = ground arith
runs-update k n m f (v ∷ vs) = ground (arith, runs-update k n m f vs)

-- A process gains or loses one registration by an update of the version that it runs on.
pub registrations-update :
    (k : ProcessKey) (n : ℕ) (f : List ProcessKey → List ProcessKey) (vs : List ModuleVersion)
    (v : ModuleVersion)
    → find_version n vs ≡ some v
    → registrations k (update_version n f vs) + (if contains_key k v.processes then 1 else 0)
      ≡ registrations k vs + (if contains_key k (f v.processes) then 1 else 0)
unfolding registrations update_version find_version
registrations-update k n f [] v h = cc
registrations-update k n f (w ∷ vs) v h = ground (arith, registrations-update k n f vs v)

pub runs-registrations :
    (k : ProcessKey) (n : ℕ) (vs : List ModuleVersion) → runs k n vs ≡ true → 1 ≤ registrations k vs
unfolding runs registrations
runs-registrations k n [] h = ground arith
runs-registrations k n (v ∷ vs) h = ground (arith, runs-registrations k n vs)

pub runs_twice :
    (k : ProcessKey) (n m : ℕ) (vs : List ModuleVersion)
    → n ≢ m
    → runs k n vs ≡ true
    → runs k m vs ≡ true
    → 2 ≤ registrations k vs
unfolding runs registrations
runs_twice k n m [] ne h g = ground arith
runs_twice k n m (v ∷ vs) ne h g =
    ground (arith, runs_twice k n m vs ne, runs-registrations k n vs, runs-registrations k m vs)

-- A process that is registered once runs on one version.
pub runs_only :
    (k : ProcessKey) (n m : ℕ) (vs : List ModuleVersion)
    → registrations k vs ≤ 1
    → runs k m vs ≡ true
    → runs k n vs ≡ (n == m)
runs_only k n m vs one on_it = elim (Bool-cases (n == m)) [
  | inl same ↦ rw same (rw (==→eq n m same) on_it)
  | inr other ↦ rw other (off (λ e. apart other e) (Bool-cases (runs k n vs)))
]
  where
    apart : (n == m) ≡ false → n ≢ m
    apart f e = ground arith

    off : n ≢ m → (runs k n vs ≡ true) ⊎ (runs k n vs ≡ false) → runs k n vs ≡ false
    off ne (inl too) = absurd (omega (arith, one, runs_twice k n m vs ne too on_it))
    off ne (inr f) = f
