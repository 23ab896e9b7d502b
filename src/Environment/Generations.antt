-- ===== src/Environment/Generations.antt =====
-- `LunaticEnvironments`, of crates/lunatic-process/src/env.rs: the registry that holds environments
-- weakly. `Arcs` are the live `Arc`s with their strong counts: `outers` are the
-- `Arc<LunaticEnvironment>`, `inners` the `Arc<LunaticEnvironmentInner>`. An `Arc` whose count falls
-- to 0 is gone, and upgrading a `Weak` of it fails. The drop of an inner runs the drop of its
-- `EnvironmentLifetime`, which may be held up by a lock: it is a step of its own, and `dropping`
-- lists the environments and generations that wait for it. A call that panics gives `none`.
pub mod Counting
pub mod Replacing
use lunatic.Prelude.{
  ℕ, zero, suc, ◌-◌, ◌≡◌, ◌+◌, refl, List, [], ◌∷◌, ◌++◌, Option, none, some, Bool, true, false,
  ltb, ◌==◌, if◌then◌else◌,
}
use lunatic.Prelude.Maps
use lunatic.External.ConcurrentMap.{ConcurrentMap}
use lunatic.Environment.{
  Error, Result, ok, err, environment_limit_reached, generations_exhausted,
  different_module_registry, no_module_registry, checked_add, checked_sub,
}

pub record StoredEnvironment : Type 0 where
  pub generation : ℕ
  pub canonical : ℕ
  pub inner : ℕ

pub record EnvironmentRegistry (M : Type 0) : Type 0 where
  pub envs : M
  pub environment_count : ℕ
  pub max_environments : ℕ
  pub max_processes_per_environment : ℕ
  pub next_generation : ℕ

pub record Outer : Type 0 where
  pub inner : ℕ
  pub strong : ℕ

pub record Inner : Type 0 where
  pub environment_id : ℕ
  pub generation : ℕ
  pub module_registry : Option ℕ
  pub strong : ℕ

pub record Arcs : Type 0 where
  pub outers : List (ℕ × Outer)
  pub inners : List (ℕ × Inner)
  pub next_arc : ℕ
  pub dropping : List (ℕ × ℕ)

-- `Weak::upgrade`.
unfoldable pub upgrade_outer : ℕ → Arcs → Option Arcs
upgrade_outer a arcs = elim (Maps.get arcs.outers a) [
  | none ↦ none
  | some o ↦
      some (record arcs { outers = Maps.insert a (record o { strong = suc o.strong }) arcs.outers })
]

unfoldable pub upgrade_inner : ℕ → Arcs → Option Arcs
upgrade_inner i arcs = elim (Maps.get arcs.inners i) [
  | none ↦ none
  | some v ↦
      some (record arcs { inners = Maps.insert i (record v { strong = suc v.strong }) arcs.inners })
]

-- `Arc::new` of an environment around an inner that the caller owns.
unfoldable pub new_outer : ℕ → Arcs → ℕ × Arcs
new_outer inner arcs = (
  arcs.next_arc,
  record arcs {
    outers = Maps.insert arcs.next_arc (record { inner = inner; strong = 1 }) arcs.outers;
    next_arc = suc arcs.next_arc;
  },
)

unfoldable pub drop_inner : ℕ → Arcs → Arcs
drop_inner i arcs = elim (Maps.get arcs.inners i) [
  | none ↦ arcs
  | some v ↦
      if v.strong == 1
      then record arcs {
        inners = Maps.remove i arcs.inners;
        dropping = (v.environment_id, v.generation) ∷ arcs.dropping;
      }
      else record arcs { inners = Maps.insert i (record v { strong = v.strong - 1 }) arcs.inners }
]

unfoldable pub drop_outer : ℕ → Arcs → Arcs
drop_outer a arcs = elim (Maps.get arcs.outers a) [
  | none ↦ arcs
  | some o ↦
      if o.strong == 1
      then drop_inner o.inner (record arcs { outers = Maps.remove a arcs.outers })
      else record arcs { outers = Maps.insert a (record o { strong = o.strong - 1 }) arcs.outers }
]

-- The registry that an environment was built with.
unfoldable pub registry_of : ℕ → Arcs → Option ℕ
registry_of a arcs = elim (Maps.get arcs.outers a) [
  | none ↦ none
  | some o ↦ elim (Maps.get arcs.inners o.inner) [ none ↦ none | some v ↦ v.module_registry ]
]

-- `none` accepts the environment.
unfoldable pub validate_registry : ℕ → Option ℕ → Option ℕ → Option Error
validate_registry id existing none = none
validate_registry id none (some requested) = some (no_module_registry id)
validate_registry id (some existing) (some requested) =
    if existing == requested then none else some (different_module_registry id)

-- The environment that is there already is returned, or dropped again when it does not fit.
unfoldable pub existing : ℕ → Option ℕ → ℕ → Arcs → Result ℕ × Arcs
existing id registry a arcs = elim (validate_registry id (registry_of a arcs) registry) [
  | none ↦ (ok a, arcs)
  | some e ↦ (err e, drop_outer a arcs)
]

module _ {M : Type 0} where
  unfoldable pub reserve_environment_slot :
      ℕ → EnvironmentRegistry M → Result (EnvironmentRegistry M)
  reserve_environment_slot id reg =
      if ltb reg.environment_count reg.max_environments
      then ok (record reg { environment_count = suc reg.environment_count })
      else err (environment_limit_reached id reg.max_environments)

  unfoldable pub release_environment_slot : EnvironmentRegistry M → Option (EnvironmentRegistry M)
  release_environment_slot reg = elim (checked_sub reg.environment_count) [
    | none ↦ none
    | some n ↦ some (record reg { environment_count = n })
  ]

  unfoldable pub next_generation : EnvironmentRegistry M → Option (ℕ × EnvironmentRegistry M)
  next_generation reg = elim (checked_add reg.next_generation) [
    | none ↦ none
    | some n ↦ some (reg.next_generation, record reg { next_generation = n })
  ]

-- The inner and the outer `Arc` of a new environment.
unfoldable pub build_environment : ℕ → ℕ → Option ℕ → Arcs → StoredEnvironment × Arcs
build_environment id generation registry arcs =
    let i = arcs.next_arc in
    let built = new_outer i (record arcs {
      inners =
          Maps.insert i
            (record {
              environment_id = id;
              generation = generation;
              module_registry = registry;
              strong = 1;
            })
            arcs.inners;
      next_arc = suc i;
    }) in
    (record { generation = generation; canonical = built.0; inner = i }, built.1)

module _ {M : Type 0} (map : ConcurrentMap StoredEnvironment M) where
  unfoldable pub with_limits : ℕ → ℕ → EnvironmentRegistry M
  with_limits max_environments max_processes_per_environment = record {
    envs = map.empty;
    environment_count = 0;
    max_environments = max_environments;
    max_processes_per_environment = max_processes_per_environment;
    next_generation = 1;
  }

  -- `entry.insert` of the environment that was built.
  unfoldable pub store :
      ℕ
      → StoredEnvironment × Arcs
      → EnvironmentRegistry M
      → Result ℕ × (EnvironmentRegistry M × Arcs)
  store id built reg =
      (ok built.0.canonical, (record reg { envs = map.insert id built.0 reg.envs }, built.1))

  -- A dead generation's slot passes to its replacement.
  unfoldable pub replace :
      ℕ → Option ℕ → EnvironmentRegistry M → Arcs → Result ℕ × (EnvironmentRegistry M × Arcs)
  replace id registry reg arcs = elim (next_generation reg) [
    | none ↦ (err generations_exhausted, (reg, arcs))
    | some (generation, reg') ↦ store id (build_environment id generation registry arcs) reg'
  ]

  unfoldable pub create_vacant :
      ℕ → Option ℕ → EnvironmentRegistry M → Arcs → Result ℕ × (EnvironmentRegistry M × Arcs)
  create_vacant id registry reg arcs = elim (next_generation reg) [
    | none ↦ (err generations_exhausted, (reg, arcs))
    | some (generation, reg') ↦ elim (reserve_environment_slot id reg') [
      | err e ↦ (err e, (reg', arcs))
      | ok reg'' ↦ store id (build_environment id generation registry arcs) reg''
    ]
  ]

  unfoldable pub create_occupied :
      ℕ
      → Option ℕ
      → StoredEnvironment
      → EnvironmentRegistry M
      → Arcs
      → Result ℕ × (EnvironmentRegistry M × Arcs)
  create_occupied id registry stored reg arcs = elim (upgrade_outer stored.canonical arcs) [
    | some arcs' ↦ let r = existing id registry stored.canonical arcs' in (r.0, (reg, r.1))
    | none ↦ elim (upgrade_inner stored.inner arcs) [
      | some arcs' ↦
          let fresh = new_outer stored.inner arcs' in
          let r = existing id registry fresh.0 fresh.1 in
          (
            r.0,
            (
              record reg { envs = map.insert id (record stored { canonical = fresh.0 }) reg.envs },
              r.1,
            ),
          )
      | none ↦ replace id registry reg arcs
    ]
  ]

  unfoldable pub create_atomic :
      ℕ → Option ℕ → EnvironmentRegistry M → Arcs → Result ℕ × (EnvironmentRegistry M × Arcs)
  create_atomic id registry reg arcs = elim (map.get reg.envs id) [
    | none ↦ create_vacant id registry reg arcs
    | some stored ↦ create_occupied id registry stored reg arcs
  ]

  unfoldable pub get_occupied :
      ℕ
      → StoredEnvironment
      → EnvironmentRegistry M
      → Arcs
      → Option ℕ × (EnvironmentRegistry M × Arcs)
  get_occupied id stored reg arcs = elim (upgrade_outer stored.canonical arcs) [
    | some arcs' ↦ (some stored.canonical, (reg, arcs'))
    | none ↦ elim (upgrade_inner stored.inner arcs) [
      | none ↦ (none, (reg, arcs))
      | some arcs' ↦
          let fresh = new_outer stored.inner arcs' in
          (
            some fresh.0,
            (
              record reg { envs = map.insert id (record stored { canonical = fresh.0 }) reg.envs },
              fresh.1,
            ),
          )
    ]
  ]

  unfoldable pub get : ℕ → EnvironmentRegistry M → Arcs → Option ℕ × (EnvironmentRegistry M × Arcs)
  get id reg arcs = elim (map.get reg.envs id) [
    | none ↦ (none, (reg, arcs))
    | some stored ↦ get_occupied id stored reg arcs
  ]

  -- Whether the generation's entry was there.
  unfoldable pub release_generation :
      ℕ → ℕ → EnvironmentRegistry M → Option (Bool × EnvironmentRegistry M)
  release_generation id generation reg = elim (map.get reg.envs id) [
    | none ↦ some (false, reg)
    | some stored ↦
        let released : Option (Bool × EnvironmentRegistry M) = elim (release_environment_slot reg) [
          | none ↦ none
          | some reg' ↦ some (true, record reg' { envs = map.remove id reg.envs })
        ] in
        if stored.generation == generation then released else some (false, reg)
  ]
