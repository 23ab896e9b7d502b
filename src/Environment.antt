-- ===== src/Environment.antt =====
-- The processes of an environment, of crates/lunatic-process/src/env.rs: `LunaticEnvironment`,
-- `NodeProcessQuota` with its leases, and `ProcessRegistration`. An `Arc` is a number, its identity.
-- The quota that environments share is passed from call to call; `none` is a standalone
-- environment. A call that panics gives `none`. `usize` has 64 bits. Metrics are left out.
pub mod Slots
pub mod Removal
pub mod Node
pub mod Registration
pub mod Generations
mod Examples
use lunatic.Prelude.{
  ℕ, zero, suc, ◌≡◌, refl, ◌⊎◌, inl, inr, ◌-◌, ◌^◌, List, [], ◌∷◌, Option, none, some, Bool, true,
  false, ltb, leb, if◌then◌else◌, is_some,
}
use lunatic.External.ConcurrentMap.{ConcurrentMap}

abbrev default_max_processes : ℕ
default_max_processes = 100000

-- `checked_add(1)` and `checked_sub(1)`.
abbrev pub checked_add : ℕ → Option ℕ
checked_add n = if ltb n (2 ^ 64 - 1) then some (suc n) else none

abbrev pub checked_sub : ℕ → Option ℕ
checked_sub zero = none
checked_sub (suc n) = some n

pub data Error : Type 0 where
  process_limit_reached node_process_limit_reached environment_limit_reached : ℕ → ℕ → Error
  already_registered : ℕ → ℕ → Error
  process_count_overflow : ℕ → Error
  generations_exhausted : Error
  different_module_registry no_module_registry : ℕ → Error

pub data Result {ℓ} (A : Type ℓ) : Type ℓ where
  ok : A → Result A
  err : Error → Result A

pub Result-cases {ℓ} :
    {A : Type ℓ} (r : Result A) → ((a : A) × (r ≡ ok a)) ⊎ ((e : Error) × (r ≡ err e))
Result-cases (ok a) = inl (a, refl)
Result-cases (err e) = inr (e, refl)

pub record NodeProcessQuota : Type 0 where
  pub count : ℕ
  pub limit : ℕ

-- An entry of the map; whether it holds a lease of the node's quota.
pub record ProcessEntry : Type 0 where
  pub process : ℕ
  pub node_lease : Bool

pub record LunaticEnvironment (M : Type 0) : Type 0 where
  pub environment_id : ℕ
  pub processes : M
  pub process_count : ℕ
  pub max_processes : Option ℕ
  pub module_registry : Option ℕ

pub data ProcessIdAllocator : Type 0 where
  standalone node : ProcessIdAllocator

-- The two counters; `none` is the panic of an allocator that has no more numbers.
pub next : ProcessIdAllocator → ℕ × ℕ → Option (ℕ × (ℕ × ℕ))
next standalone (n, m) = elim (checked_add n) [ none ↦ none | some n' ↦ some (n, (n', m)) ]
next node (n, m) = elim (checked_add m) [ none ↦ none | some m' ↦ some (m, (n, m')) ]

pub new_quota : ℕ → NodeProcessQuota
new_quota limit = record { count = 0; limit = limit }

pub reserve : ℕ → NodeProcessQuota → Result NodeProcessQuota
reserve environment_id quota =
    if ltb quota.count quota.limit
    then ok (record quota { count = suc quota.count })
    else err (node_process_limit_reached environment_id quota.limit)

-- `NodeProcessLease::drop`.
pub drop_lease : NodeProcessQuota → Option NodeProcessQuota
drop_lease quota = elim (checked_sub quota.count) [
  | none ↦ none
  | some n ↦ some (record quota { count = n })
]

module _ {M : Type 0} where
  pub reserve_process_slot : LunaticEnvironment M → Result (LunaticEnvironment M)
  reserve_process_slot env = elim env.max_processes [
    | some limit ↦
        if ltb env.process_count limit
        then ok (record env { process_count = suc env.process_count })
        else err (process_limit_reached env.environment_id limit)
    | none ↦ elim (checked_add env.process_count) [
      | some n ↦ ok (record env { process_count = n })
      | none ↦ err (process_count_overflow env.environment_id)
    ]
  ]

  pub release_process_slot : LunaticEnvironment M → Option (LunaticEnvironment M)
  release_process_slot env = elim (checked_sub env.process_count) [
    | none ↦ none
    | some n ↦ some (record env { process_count = n })
  ]

  pub process_count : LunaticEnvironment M → ℕ
  process_count env = env.process_count

  pub max_processes : LunaticEnvironment M → Option ℕ
  max_processes env = env.max_processes

  pub get_module_registry : LunaticEnvironment M → Option ℕ
  get_module_registry env = env.module_registry

  pub set_module_registry : ℕ → LunaticEnvironment M → LunaticEnvironment M
  set_module_registry registry env = record env { module_registry = some registry }

  -- The advisory check of both limits; `none` lets the caller spawn.
  pub can_spawn_next_process : LunaticEnvironment M → Option NodeProcessQuota → Option Error
  can_spawn_next_process env quota =
      let node : Option Error = elim quota [
        | none ↦ none
        | some q ↦
            if leb q.limit q.count
            then some (node_process_limit_reached env.environment_id q.limit)
            else none
      ] in
      elim env.max_processes [
        | none ↦ node
        | some limit ↦
            if leb limit env.process_count
            then some (process_limit_reached env.environment_id limit)
            else node
      ]

-- The drop of an entry gives its lease back.
drop_entry : ProcessEntry → Option NodeProcessQuota → Option (Option NodeProcessQuota)
drop_entry entry none = some none
drop_entry entry (some q) =
    let dropped : Option (Option NodeProcessQuota) = elim (drop_lease q) [
      | none ↦ none
      | some q' ↦ some (some q')
    ] in
    if entry.node_lease then dropped else some (some q)

module _ {M : Type 0} (map : ConcurrentMap ProcessEntry M) where
  pub with_node_options : ℕ → Option ℕ → Option ℕ → LunaticEnvironment M
  with_node_options id max_processes module_registry = record {
    environment_id = id;
    processes = map.empty;
    process_count = 0;
    max_processes = max_processes;
    module_registry = module_registry;
  }

  pub new : ℕ → LunaticEnvironment M
  unfolding with_node_options
  new id = with_node_options id (some default_max_processes) none

  pub get_process : ℕ → LunaticEnvironment M → Option ℕ
  get_process id env = elim (map.get env.processes id) [ none ↦ none | some e ↦ some e.process ]

  insert_process : ℕ → ℕ → Bool → LunaticEnvironment M → LunaticEnvironment M
  insert_process id process lease env = record env {
    processes = map.insert id (record { process = process; node_lease = lease }) env.processes;
  }

  -- The environment and the quota after the call, with the error when it fails.
  pub add_process :
      ℕ
      → ℕ
      → LunaticEnvironment M
      → Option NodeProcessQuota
      → Option (Option Error × (LunaticEnvironment M × Option NodeProcessQuota))
  unfolding insert_process
  add_process id process env quota = elim (map.get env.processes id) [
    | some e ↦ some (some (already_registered id env.environment_id), (env, quota))
    | none ↦ elim (reserve_process_slot env) [
      | err e ↦ some (some e, (env, quota))
      | ok env' ↦ elim quota [
        | none ↦ some (none, (insert_process id process false env', none))
        | some q ↦ elim (reserve env.environment_id q) [
          | ok q' ↦ some (none, (insert_process id process true env', some q'))
          | err e ↦ elim (release_process_slot env') [
            | none ↦ none
            | some env'' ↦ some (some e, (env'', some q))
          ]
        ]
      ]
    ]
  ]

  -- Whether the process was registered.
  pub remove_process :
      ℕ
      → LunaticEnvironment M
      → Option NodeProcessQuota
      → Option (Bool × (LunaticEnvironment M × Option NodeProcessQuota))
  unfolding drop_entry
  remove_process id env quota = elim (map.get env.processes id) [
    | none ↦ some (false, (env, quota))
    | some entry ↦
        elim (release_process_slot (record env { processes = map.remove id env.processes })) [
          | none ↦ none
          | some env' ↦ elim (drop_entry entry quota) [
            | none ↦ none
            | some quota' ↦ some (true, (env', quota'))
          ]
        ]
  ]
