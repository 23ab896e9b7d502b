-- ===== src/ModuleRegistry/Cleanup.antt =====
-- `cleanup_old_versions`: what it keeps, and that nothing in use goes away.
use lunatic.Prelude.{
  ℕ, zero, suc, ◌+◌, ◌-◌, ◌≤◌, ◌≡◌, refl, sym, ◌⊎◌, inl, inr, List, [], ◌∷◌, ◌++◌, true, false, not,
  ◌||◌, arith, length, drop, drop-nil, All, ◌==◌, Bool-cases, leb,
}
use lunatic.ModuleRegistry.{
  ProcessKey, ModuleVersion, ModuleHistory, contains_key, find_version, retain_versions,
  cleanup_old_versions, is_empty_set,
}
use lunatic.ModuleRegistry.History.{Ascending, Ascending-mono, registrations, runs, find_below}

pub Ascending-retain :
    (index keep committed low high : ℕ) (vs : List ModuleVersion)
    → Ascending low high vs
    → Ascending low high (retain_versions index keep committed vs)
unfolding retain_versions
Ascending-retain index keep committed low high [] a = a
Ascending-retain index keep committed low high (v ∷ vs) a =
    let rest = Ascending-retain (index + 1) keep committed (suc v.version) high vs a.1 in
    let weaker =
      Ascending-mono (suc v.version) low high (retain_versions (index + 1) keep committed vs)
        (omega arith) rest in
    ground (arith, rest, weaker)

pub find-retain_committed :
    (index keep committed : ℕ) (vs : List ModuleVersion)
    → find_version committed (retain_versions index keep committed vs) ≡ find_version committed vs
unfolding retain_versions find_version
find-retain_committed index keep committed [] = refl
find-retain_committed index keep committed (v ∷ vs) =
    ground (arith, find-retain_committed (index + 1) keep committed vs)

empty_contains :
    (k : ProcessKey) (ps : List ProcessKey) → is_empty_set ps ≡ true → contains_key k ps ≡ false
unfolding contains_key
empty_contains k [] h = refl
empty_contains k (p ∷ ps) h = cc

pub registrations-retain :
    (k : ProcessKey) (index keep committed : ℕ) (vs : List ModuleVersion)
    → registrations k (retain_versions index keep committed vs) ≡ registrations k vs
unfolding retain_versions registrations
registrations-retain k index keep committed [] = refl
registrations-retain k index keep committed (v ∷ vs) =
    ground
      (arith, registrations-retain k (index + 1) keep committed vs, empty_contains k v.processes)

pub runs-retain :
    (k : ProcessKey) (n index keep committed low high : ℕ) (vs : List ModuleVersion)
    → Ascending low high vs
    → runs k n (retain_versions index keep committed vs) ≡ runs k n vs
unfolding retain_versions runs
runs-retain k n index keep committed low high [] a = refl
runs-retain k n index keep committed low high (v ∷ vs) a = ground (
  arith,
  runs-retain k n (index + 1) keep committed (suc v.version) high vs a.1,
  empty_contains k v.processes,
  find_below (suc v.version) high n (retain_versions (index + 1) keep committed vs)
      (Ascending-retain (index + 1) keep committed (suc v.version) high vs a.1),
)

-- From the index `keep` on, nothing goes away.
retain_recent :
    (index keep committed : ℕ) (vs : List ModuleVersion)
    → keep ≤ index
    → retain_versions index keep committed vs ≡ vs
unfolding retain_versions
retain_recent index keep committed [] h = refl
retain_recent index keep committed (v ∷ vs) h =
    ground (arith, retain_recent (index + 1) keep committed vs)

abbrev InUse : ℕ → ModuleVersion → Type 0
InUse committed v = (v.version ≡ committed) ⊎ (is_empty_set v.processes ≡ false)

retain_split :
    (index keep committed : ℕ) (vs : List ModuleVersion)
    → (front : List ModuleVersion) × (retain_versions index keep committed vs
        ≡ front ++ drop (keep - index) vs)
      × All (InUse committed) front
unfolding retain_versions
retain_split index keep committed [] = ([], sym (drop-nil (keep - index)), tt)
retain_split index keep committed (v ∷ vs) =
    let (front, e, used) = retain_split (index + 1) keep committed vs in
    elim (Bool-cases (leb keep index)) [
      | inl recent ↦
          let none_left : keep - index ≡ zero = ground arith in
          ([], rw none_left (retain_recent index keep committed (v ∷ vs) (ground arith)), tt)
      | inr old ↦
          let one_more : keep - index ≡ suc (keep - (index + 1)) = ground arith in
          rw one_more (
            keep_or_drop front e used old
              (Bool-cases (v.version == committed || not (is_empty_set v.processes))))
    ]
  where
    keep_or_drop :
        (front : List ModuleVersion)
        → retain_versions (index + 1) keep committed vs ≡ front ++ drop (keep - (index + 1)) vs
        → All (InUse committed) front
        → leb keep index ≡ false
        → ((v.version == committed || not (is_empty_set v.processes)) ≡ true)
          ⊎ ((v.version == committed || not (is_empty_set v.processes)) ≡ false)
        → (front' : List ModuleVersion) × (retain_versions index keep committed (v ∷ vs)
            ≡ front' ++ drop (keep - (index + 1)) vs)
          × All (InUse committed) front'
    keep_or_drop front e used old (inl t) = (v ∷ front, ground arith, (ground arith, used))
    keep_or_drop front e used old (inr f) = (front, ground arith, used)

pub runs-cleanup :
    (k : ProcessKey) (n max_versions : ℕ) (h : ModuleHistory)
    → Ascending 0 h.next_version h.versions
    → runs k n (cleanup_old_versions max_versions h).versions ≡ runs k n h.versions
unfolding cleanup_old_versions
runs-cleanup k n max_versions h a =
    runs-retain k n 0 _ h.committed_version 0 h.next_version h.versions a

-- A cleanup of versions whose numbers rise keeps the last `max_versions` versions, and before them
-- only the committed version and versions that processes run on. It takes away nothing in use: the
-- committed version is found as before, and every process runs on the versions that it ran on.
pub cleanup_keeps :
    (max_versions : ℕ) (h : ModuleHistory) (k : ProcessKey) (n : ℕ)
    → Ascending 0 h.next_version h.versions
    → let h' = cleanup_old_versions max_versions h in
      ((front : List ModuleVersion) × (h'.versions
          ≡ front ++ drop (length h.versions - max_versions) h.versions)
        × All (InUse h.committed_version) front)
      × (find_version h.committed_version h'.versions ≡ find_version h.committed_version h.versions)
      × (runs k n h'.versions ≡ runs k n h.versions)
unfolding cleanup_old_versions
cleanup_keeps max_versions h k n a =
    let keep : ℕ = length h.versions - max_versions in
    let from_zero : keep - 0 ≡ keep = omega arith in
    (
      rw from_zero at (retain_split 0 keep h.committed_version h.versions),
      find-retain_committed 0 _ h.committed_version h.versions,
      runs-retain k n 0 _ h.committed_version 0 h.next_version h.versions a,
    )
