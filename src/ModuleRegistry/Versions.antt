-- ===== src/ModuleRegistry/Versions.antt =====
-- New versions of a module, and the choice of the committed one.
use lunatic.Prelude.{
  ltb, length-append, ℕ, suc, ◌+◌, ◌≤◌, ◌≡◌, refl, ap, ◌⊎◌, inl, inr, List, [], ◌∷◌, ◌++◌, none,
  some, true, false, arith, length, is_some, if◌then◌else◌, Bool-cases,
}
use lunatic.ModuleRegistry.{
  ProcessKey, ModuleVersion, ModuleHistory, ok, find_version, new_version, retain_versions,
  cleanup_old_versions, push_version, commit_version,
}
use lunatic.ModuleRegistry.History.{
  Ascending-le, Ascending, registrations, Ascending-append, find-append_some, registrations-append,
}
use lunatic.ModuleRegistry.Invariant.{IsSound, cleanup-IsSound}

-- No version has a number that is still to be given out.
find_above :
    (low high n : ℕ) (vs : List ModuleVersion)
    → Ascending low high vs
    → high ≤ n
    → find_version n vs ≡ none
unfolding find_version
find_above low high n [] a h = refl
find_above low high n (v ∷ vs) a h =
    ground
      (arith, find_above (suc v.version) high n vs a.1, Ascending-le (suc v.version) high vs a.1)

find-retain_last :
    (index keep committed low : ℕ) (vs : List ModuleVersion) (v : ModuleVersion)
    → keep ≤ index + length vs
    → Ascending low v.version vs
    → find_version v.version (retain_versions index keep committed (vs ++ v ∷ [])) ≡ some v
unfolding find_version retain_versions
find-retain_last index keep committed low [] v h a = ground arith
find-retain_last index keep committed low (w ∷ vs) v h a = ground (
  arith,
  find-retain_last (index + 1) keep committed (suc w.version) vs v,
  Ascending-le (suc w.version) v.version vs a.1,
)

find-append_last :
    (low : ℕ) (vs : List ModuleVersion) (v : ModuleVersion)
    → Ascending low v.version vs
    → find_version v.version (vs ++ v ∷ []) ≡ some v
unfolding find_version
find-append_last low [] v a = ground arith
find-append_last low (w ∷ vs) v a = ground (
  arith,
  find-append_last (suc w.version) vs v a.1,
  Ascending-le (suc w.version) v.version vs a.1,
)

-- The history with the new version, before the cleanup.
added : ℕ → ℕ → ℕ → ModuleHistory → ℕ → ModuleHistory
added id compiled now h committed = record {
  next_version = h.next_version + 1;
  committed_version = committed;
  versions = h.versions ++ new_version id h.next_version compiled now ∷ [];
}

added-IsSound :
    (id compiled now : ℕ) (h : ModuleHistory)
    → IsSound h
    → (h.versions ≡ [] → IsSound (added id compiled now h h.next_version))
      × (is_some (find_version h.committed_version h.versions) ≡ true
          → IsSound (added id compiled now h h.committed_version))
unfolding added new_version
added-IsSound id compiled now h v = (first, later)
  where
    version : ModuleVersion
    version = record {
      id = id;
      version = h.next_version;
      compiled = compiled;
      loaded_at = now;
      processes = [];
    }

    ascending : Ascending 0 (h.next_version + 1) (h.versions ++ version ∷ [])
    ascending =
        let e : h.next_version + 1 ≡ suc h.next_version = omega arith in
        rw e (Ascending-append 0 h.next_version h.versions version refl v.ascending)

    unique : (k : ProcessKey) → registrations k (h.versions ++ version ∷ []) ≤ 1
    unique k = rw (registrations-append k h.versions version refl) (v.unique k)

    first : h.versions ≡ [] → IsSound (added id compiled now h h.next_version)
    first e = record {
      ascending = ascending;
      committed = inr (ap is_some (find-append_last 0 h.versions version v.ascending));
      unique = unique;
    }

    later :
        is_some (find_version h.committed_version h.versions) ≡ true
        → IsSound (added id compiled now h h.committed_version)
    later e = record {
      ascending = ascending;
      committed = inr (find-append_some h.committed_version h.versions version e);
      unique = unique;
    }

-- What `add_version` gives, whichever version is committed by it.
NewVersion : ℕ → ℕ → ℕ → ℕ → ModuleHistory → ModuleHistory → Type 0
NewVersion id compiled now version h h' =
    IsSound h'
    × (find_version version h.versions ≡ none)
    × (find_version version h'.versions ≡ some (new_version id version compiled now))
    × (h'.next_version ≡ version + 1)

cleaned_up : ℕ → ModuleHistory → ModuleHistory
cleaned_up max_versions h =
    if ltb max_versions (length h.versions) then cleanup_old_versions max_versions h else h

cleaned_up-NewVersion :
    (max_versions id compiled now committed : ℕ) (h : ModuleHistory)
    → 1 ≤ max_versions
    → IsSound h
    → IsSound (added id compiled now h committed)
    → NewVersion id compiled now h.next_version h
        (cleaned_up max_versions (added id compiled now h committed))
unfolding NewVersion cleaned_up added new_version cleanup_old_versions
cleaned_up-NewVersion max_versions id compiled now committed h pos v w =
    split (Bool-cases (ltb max_versions (length more.versions)))
  where
    version : ModuleVersion
    version = record {
      id = id;
      version = h.next_version;
      compiled = compiled;
      loaded_at = now;
      processes = [];
    }

    more : ModuleHistory
    more = added id compiled now h committed

    fresh : find_version h.next_version h.versions ≡ none
    fresh = find_above 0 h.next_version h.next_version h.versions v.ascending (omega arith)

    split :
        (ltb max_versions (length more.versions) ≡ true)
          ⊎ (ltb max_versions (length more.versions) ≡ false)
        → NewVersion id compiled now h.next_version h (cleaned_up max_versions more)
    split (inl many) = rw many (
      cleanup-IsSound max_versions more w,
      fresh,
      find-retain_last 0 _ committed 0 h.versions version
          (omega (arith, length-append h.versions (version ∷ []))) v.ascending,
      refl,
    )
    split (inr few) = rw few (w, fresh, find-append_last 0 h.versions version v.ascending, refl)

push_as_added :
    (max_versions id compiled now version : ℕ) (h h' : ModuleHistory) (vs : List ModuleVersion)
    → h.versions ≡ vs
    → push_version max_versions id compiled now h ≡ ok (h', version)
    → (version ≡ h.next_version)
      × (h'
          ≡ cleaned_up max_versions (
              added id compiled now h
                (elim vs [ [] ↦ h.next_version | w ∷ ws ↦ h.committed_version ])))
unfolding push_version cleaned_up added
push_as_added max_versions id compiled now version h h' [] e p = ground arith
push_as_added max_versions id compiled now version h h' (w ∷ ws) e p = ground arith

-- Where the limit is positive and the history sound, a version that is added has a number that no
-- version has, is found under it, also after the cleanup that adding it may bring, and moves the
-- next number on; the history stays sound.
pub push-IsSound :
    (max_versions id compiled now version : ℕ) (h h' : ModuleHistory)
    → 1 ≤ max_versions
    → IsSound h
    → push_version max_versions id compiled now h ≡ ok (h', version)
    → IsSound h'
      × (find_version version h.versions ≡ none)
      × (find_version version h'.versions ≡ some (new_version id version compiled now))
      × (h'.next_version ≡ version + 1)
unfolding NewVersion
push-IsSound max_versions id compiled now version h h' pos v p = split h.versions refl v.committed
  where
    split :
        (vs : List ModuleVersion)
        → h.versions ≡ vs
        → (h.versions ≡ []) ⊎ (is_some (find_version h.committed_version h.versions) ≡ true)
        → NewVersion id compiled now version h h'
    split [] e c =
        let (number, result) = push_as_added max_versions id compiled now version h h' [] e p in
        rw number (
          rw result (
            cleaned_up-NewVersion max_versions id compiled now _ h pos v
              ((added-IsSound id compiled now h v).0 e)))
    split (w ∷ ws) e (inl none_yet) = cc
    split (w ∷ ws) e (inr there) =
        let (number, result) =
          push_as_added max_versions id compiled now version h h' (w ∷ ws) e p in
        rw number (
          rw result (
            cleaned_up-NewVersion max_versions id compiled now _ h pos v
              ((added-IsSound id compiled now h v).1 there)))

-- The committed version is one that is there, and a cleanup follows.
pub commit-IsSound :
    (max_versions id version : ℕ) (h h' : ModuleHistory)
    → IsSound h
    → commit_version max_versions id version h ≡ ok h'
    → IsSound h' × (h'.committed_version ≡ version)
unfolding commit_version cleanup_old_versions
commit-IsSound max_versions id version h h' v p =
    let chosen : ModuleHistory = record h { committed_version = version } in
    let known : is_some (find_version version h.versions) ≡ true = ground arith in
    let same : h' ≡ cleanup_old_versions max_versions chosen = ground arith in
    let sound : IsSound chosen = record {
      ascending = v.ascending;
      committed = inr known;
      unique = v.unique;
    } in
    rw same (cleanup-IsSound max_versions chosen sound, refl)
