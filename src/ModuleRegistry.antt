-- ===== src/ModuleRegistry.antt =====
-- crates/lunatic-process/src/module_registry.rs: the versions of each module that a node keeps, and
-- the processes that run them. A compiled module is a number, the identity of its `Arc`; a
-- `HashSet` of processes is a list of its members. A call holds the lock of its module's entry, so
-- it is one step. The transaction locks order whole reloads and have no state of their own.
pub mod History
pub mod Cleanup
pub mod Processes
pub mod Invariant
pub mod Versions
pub mod Registry
pub mod ReloadOrder
mod Examples
use lunatic.Prelude.{
  ℕ, zero, suc, ◌+◌, ◌-◌, ◌^◌, List, [], ◌∷◌, ◌++◌, Option, none, some, Bool, true, false, not,
  ◌&&◌, ◌||◌, ltb, leb, ◌==◌, if◌then◌else◌, length, is_some, max, contains, ◌>>=◌,
}
use lunatic.External.ConcurrentMap.{ConcurrentMap}

pub record ProcessKey : Type 0 where
  pub environment_id : ℕ
  pub process_id : ℕ

pub record ModuleVersion : Type 0 where
  pub id : ℕ
  pub version : ℕ
  pub compiled : ℕ
  pub loaded_at : ℕ
  pub processes : List ProcessKey

pub record ModuleHistory : Type 0 where
  pub next_version : ℕ
  pub committed_version : ℕ
  pub versions : List ModuleVersion

pub data Error : Type 0 where
  module_not_registered : ℕ → Error
  version_not_registered : ℕ → ℕ → Error
  process_already_registered : ProcessKey → ℕ → Error
  process_not_registered : ProcessKey → ℕ → ℕ → Error
  version_ids_exhausted : ℕ → Error

pub data Result {ℓ} (A : Type ℓ) : Type ℓ where
  ok : A → Result A
  err : Error → Result A

abbrev pub u32_max : ℕ
u32_max = 2 ^ 32 - 1

abbrev pub key_eq : ProcessKey → ProcessKey → Bool
key_eq a b = a.environment_id == b.environment_id && a.process_id == b.process_id

unfoldable pub contains_key : ProcessKey → List ProcessKey → Bool
contains_key k [] = false
contains_key k (p ∷ ps) = key_eq p k || contains_key k ps

-- `HashSet::insert` and `HashSet::remove`.
pub insert_key : ProcessKey → List ProcessKey → List ProcessKey
unfolding contains_key
insert_key k ps = if contains_key k ps then ps else k ∷ ps

pub remove_key : ProcessKey → List ProcessKey → List ProcessKey
remove_key k [] = []
remove_key k (p ∷ ps) = let rest = remove_key k ps in if key_eq p k then rest else p ∷ rest

pub new_version : ℕ → ℕ → ℕ → ℕ → ModuleVersion
new_version id version compiled now = record {
  id = id;
  version = version;
  compiled = compiled;
  loaded_at = now;
  processes = [];
}

pub get_process_count : ModuleVersion → ℕ
get_process_count v = length v.processes

-- The first version with that number: `iter().find` and `iter_mut().find`.
unfoldable pub find_version : ℕ → List ModuleVersion → Option ModuleVersion
find_version n [] = none
find_version n (v ∷ vs) = if v.version == n then some v else find_version n vs

pub update_version :
    ℕ → (List ProcessKey → List ProcessKey) → List ModuleVersion → List ModuleVersion
update_version n f [] = []
update_version n f (v ∷ vs) =
    if v.version == n
    then record v { processes = f v.processes } ∷ vs
    else v ∷ update_version n f vs

-- Whether a process is registered on any version.
pub any_contains : ProcessKey → List ModuleVersion → Bool
any_contains k [] = false
any_contains k (v ∷ vs) = contains_key k v.processes || any_contains k vs

abbrev is_empty_set : List ProcessKey → Bool
is_empty_set [] = true
is_empty_set (p ∷ ps) = false

-- The `retain` loop from `index` on.
pub retain_versions : ℕ → ℕ → ℕ → List ModuleVersion → List ModuleVersion
retain_versions index keep_from committed [] = []
retain_versions index keep_from committed (v ∷ vs) =
    let rest = retain_versions (index + 1) keep_from committed vs in
    if v.version == committed || not (is_empty_set v.processes) || leb keep_from index
    then v ∷ rest
    else rest

pub cleanup_old_versions : ℕ → ModuleHistory → ModuleHistory
unfolding retain_versions
cleanup_old_versions max_versions h = record h {
  versions = retain_versions 0 (length h.versions - max_versions) h.committed_version h.versions;
}

abbrev pub empty_history : ModuleHistory
empty_history = record { next_version = 0; committed_version = 0; versions = [] }

-- `add_version` on the entry of the module.
pub push_version : ℕ → ℕ → ℕ → ℕ → ModuleHistory → Result (ModuleHistory × ℕ)
unfolding new_version
push_version max_versions id compiled now h =
    let version = h.next_version in
    let committed : ℕ = elim h.versions [ [] ↦ version | v ∷ vs ↦ h.committed_version ] in
    let added : ModuleHistory = record {
      next_version = version + 1;
      committed_version = committed;
      versions = h.versions ++ new_version id version compiled now ∷ [];
    } in
    let cleaned =
      if ltb max_versions (length added.versions)
      then cleanup_old_versions max_versions added
      else added in
    if version == u32_max then err (version_ids_exhausted id) else ok (cleaned, version)

pub commit_version : ℕ → ℕ → ℕ → ModuleHistory → Result ModuleHistory
unfolding cleanup_old_versions
commit_version max_versions id version h =
    if is_some (find_version version h.versions)
    then ok (cleanup_old_versions max_versions (record h { committed_version = version }))
    else err (version_not_registered id version)

pub enter_version : ℕ → ℕ → ProcessKey → ModuleHistory → Result ModuleHistory
enter_version id version process h =
    if any_contains process h.versions
    then err (process_already_registered process id)
    else if is_some (find_version version h.versions)
    then ok (record h { versions = update_version version (insert_key process) h.versions })
    else err (version_not_registered id version)

leave_found : ℕ → ℕ → ℕ → ProcessKey → ModuleHistory → Option ModuleVersion → Result ModuleHistory
leave_found max_versions id version process h none = err (version_not_registered id version)
leave_found max_versions id version process h (some v) =
    if contains_key process v.processes
    then ok (
        cleanup_old_versions max_versions
          (record h { versions = update_version version (remove_key process) h.versions }))
    else err (process_not_registered process id version)

pub leave_version : ℕ → ℕ → ℕ → ProcessKey → ModuleHistory → Result ModuleHistory
unfolding leave_found cleanup_old_versions
leave_version max_versions id version process h =
    leave_found max_versions id version process h (find_version version h.versions)

moved : ℕ → ℕ → ℕ → ℕ → ProcessKey → ModuleHistory → Option ModuleVersion → Result ModuleHistory
moved max_versions id old new process h none = err (version_not_registered id new)
moved max_versions id old new process h (some target) =
    if contains_key process target.processes
    then err (process_already_registered process id)
    else ok (
        cleanup_old_versions max_versions (record h {
          versions =
              update_version new (insert_key process)
                (update_version old (remove_key process) h.versions);
        }))

move_found :
    ℕ → ℕ → ℕ → ℕ → ProcessKey → ModuleHistory → Option ModuleVersion → Result ModuleHistory
unfolding moved cleanup_old_versions
move_found max_versions id old new process h none = err (version_not_registered id old)
move_found max_versions id old new process h (some source) =
    if contains_key process source.processes
    then if old == new
      then ok h
      else moved max_versions id old new process h (find_version new h.versions)
    else err (process_not_registered process id old)

pub move_version : ℕ → ℕ → ℕ → ℕ → ProcessKey → ModuleHistory → Result ModuleHistory
unfolding move_found
move_version max_versions id old new process h =
    move_found max_versions id old new process h (find_version old h.versions)

-- `versions.last()`.
pub last_version : List ModuleVersion → Option ModuleVersion
last_version [] = none
last_version (v ∷ []) = some v
last_version (v ∷ w ∷ vs) = last_version (w ∷ vs)

processes_in : ℕ → List ProcessKey → List ℕ
processes_in environment_id [] = []
processes_in environment_id (p ∷ ps) =
    let rest = processes_in environment_id ps in
    if p.environment_id == environment_id then p.process_id ∷ rest else rest

all_processes : List ModuleVersion → List ProcessKey
all_processes [] = []
all_processes (v ∷ vs) = v.processes ++ all_processes vs

-- `sort_unstable` and then `dedup`: sorted, and each number once.
unfoldable pub insert_sorted : ℕ → List ℕ → List ℕ
insert_sorted a [] = a ∷ []
insert_sorted a (x ∷ xs) =
    if ltb a x then a ∷ x ∷ xs else if a == x then x ∷ xs else x ∷ insert_sorted a xs

unfoldable pub sort_dedup : List ℕ → List ℕ
sort_dedup [] = []
sort_dedup (x ∷ xs) = insert_sorted x (sort_dedup xs)

-- `M` holds the histories, `D` the lists of dependents.
pub record ModuleRegistry (M D : Type 0) : Type 0 where
  pub modules : M
  pub max_versions : ℕ
  pub dependencies : D

-- `entry(id).or_insert_with(...)`.
entry_of : Option ModuleHistory → ModuleHistory
entry_of none = empty_history
entry_of (some h) = h

module _ {M D : Type 0} (histories : ConcurrentMap ModuleHistory M)
    (lists : ConcurrentMap (List ℕ) D) where
  pub new : ModuleRegistry M D
  new = record { modules = histories.empty; max_versions = 2; dependencies = lists.empty }

  pub with_max_versions : ℕ → ModuleRegistry M D
  with_max_versions n = record {
    modules = histories.empty;
    max_versions = max n 2;
    dependencies = lists.empty;
  }

  pub history_of : ℕ → ModuleRegistry M D → Option ModuleHistory
  history_of id r = histories.get r.modules id

  pub add_version : ℕ → ℕ → ℕ → ModuleRegistry M D → Result (ModuleRegistry M D × ℕ)
  unfolding history_of entry_of
  add_version id compiled now r =
      elim (push_version r.max_versions id compiled now (entry_of (history_of id r))) [
        | err e ↦ err e
        | ok (h, version) ↦ ok (record r { modules = histories.insert id h r.modules }, version)
      ]

  -- `get_mut` of a module's entry, and a call on it that may fail.
  update_history :
      ℕ → (ModuleHistory → Result ModuleHistory) → ModuleRegistry M D → Result (ModuleRegistry M D)
  unfolding history_of
  update_history id f r = elim (history_of id r) [
    | none ↦ err (module_not_registered id)
    | some h ↦ elim (f h) [
      | err e ↦ err e
      | ok h' ↦ ok (record r { modules = histories.insert id h' r.modules })
    ]
  ]

  pub mark_committed : ℕ → ℕ → ModuleRegistry M D → Result (ModuleRegistry M D)
  unfolding update_history commit_version
  mark_committed id version r = update_history id (commit_version r.max_versions id version) r

  pub register_process : ℕ → ℕ → ProcessKey → ModuleRegistry M D → Result (ModuleRegistry M D)
  unfolding update_history enter_version
  register_process id version process r = update_history id (enter_version id version process) r

  pub transition_process : ℕ → ℕ → ℕ → ProcessKey → ModuleRegistry M D → Result (ModuleRegistry M D)
  unfolding update_history move_version
  transition_process id old new process r =
      update_history id (move_version r.max_versions id old new process) r

  pub unregister_process : ℕ → ℕ → ProcessKey → ModuleRegistry M D → Result (ModuleRegistry M D)
  unfolding update_history leave_version
  unregister_process id version process r =
      update_history id (leave_version r.max_versions id version process) r

  pub get_latest : ℕ → ModuleRegistry M D → Option ℕ
  get_latest id r = do h ← history_of id r; v ← last_version h.versions; some v.compiled

  pub get_version : ℕ → ℕ → ModuleRegistry M D → Option ℕ
  get_version id version r = do
    h ← history_of id r
    v ← find_version version h.versions
    some v.compiled

  pub get_latest_version_number : ℕ → ModuleRegistry M D → Option ℕ
  get_latest_version_number id r = do
    h ← history_of id r
    v ← last_version h.versions
    some v.version

  pub get_committed_version_number : ℕ → ModuleRegistry M D → Option ℕ
  get_committed_version_number id r = do h ← history_of id r; some h.committed_version

  pub get_committed : ℕ → ModuleRegistry M D → Option ℕ
  get_committed id r = do
    h ← history_of id r
    v ← find_version h.committed_version h.versions
    some v.compiled

  pub version_count : ℕ → ModuleRegistry M D → ℕ
  version_count id r = elim (history_of id r) [ none ↦ 0 | some h ↦ length h.versions ]

  pub process_count : ℕ → ℕ → ModuleRegistry M D → Option ℕ
  unfolding get_process_count
  process_count id version r = do
    h ← history_of id r
    v ← find_version version h.versions
    some (get_process_count v)

  pub processes_for_module : ℕ → ℕ → ModuleRegistry M D → List ℕ
  unfolding processes_in all_processes sort_dedup
  processes_for_module id environment_id r = elim (history_of id r) [
    | none ↦ []
    | some h ↦ sort_dedup (processes_in environment_id (all_processes h.versions))
  ]

  unfoldable pub get_dependents : ℕ → ModuleRegistry M D → List ℕ
  get_dependents id r = elim (lists.get r.dependencies id) [ none ↦ [] | some ds ↦ ds ]

  pub add_dependency : ℕ → ℕ → ModuleRegistry M D → ModuleRegistry M D
  unfolding get_dependents
  add_dependency dependent dependency r =
      let deps = get_dependents dependency r in
      let deps' = if contains dependent deps then deps else deps ++ dependent ∷ [] in
      record r { dependencies = lists.insert dependency deps' r.dependencies }
