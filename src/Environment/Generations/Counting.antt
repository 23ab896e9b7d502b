-- ===== src/Environment/Generations/Counting.antt =====
-- The number of environments of a registry, under any calls.
use lunatic.Prelude.{
  ℕ, suc, ◌≤◌, ◌<◌, ◌≡◌, inl, inr, refl, sym, ◌∙◌, List, [], ◌∷◌, Option, none, some, Bool, true,
  false, arith, ◌==◌, Option-cases, Bool-cases,
}
use lunatic.External.ConcurrentMap.{ConcurrentMap}
use lunatic.Environment.{Result-cases, ok}
use lunatic.Environment.Generations.{
  StoredEnvironment, EnvironmentRegistry, Arcs, upgrade_outer, upgrade_inner, drop_inner,
  drop_outer, reserve_environment_slot, release_environment_slot, next_generation,
  build_environment, store, replace, create_vacant, create_occupied, create_atomic, get_occupied,
  get, release_generation,
}

-- `destroy` is the drop of an environment's lifetime.
pub data Call : Type 0 where
  create : ℕ → Option ℕ → Call
  lookup drop_arc drop_value : ℕ → Call
  destroy : ℕ → ℕ → Call

module _ {M : Type 0} (map : ConcurrentMap StoredEnvironment M) where
  -- The counter counts the entries, at most the limit, and every generation was handed out.
  pub record IsCounted (reg : EnvironmentRegistry M) : Type 0 where
    pub counted : reg.environment_count ≡ map.len reg.envs
    pub bounded : reg.environment_count ≤ reg.max_environments
    pub handed_out :
        (id : ℕ) (s : StoredEnvironment)
        → map.get reg.envs id ≡ some s
        → s.generation < reg.next_generation

  recanonical :
      (id canonical : ℕ) (stored : StoredEnvironment) (reg : EnvironmentRegistry M)
      → map.get reg.envs id ≡ some stored
      → IsCounted reg
      → IsCounted
          (record reg { envs = map.insert id (record stored { canonical = canonical }) reg.envs })
  recanonical id canonical stored reg hit c = record {
    counted = c.counted ∙ sym (map.len-insert_old id _ stored reg.envs hit);
    bounded = c.bounded;
    handed_out = λ j s h. ground (
      arith,
      c.handed_out id stored hit,
      c.handed_out j s,
      map.get-insert id (record stored { canonical = canonical }) reg.envs j,
    );
  }

  replaced :
      (id : ℕ) (registry : Option ℕ) (stored : StoredEnvironment) (reg : EnvironmentRegistry M)
      (arcs : Arcs)
      → map.get reg.envs id ≡ some stored
      → IsCounted reg
      → IsCounted (replace map id registry reg arcs).1.0
  unfolding replace next_generation store build_environment
  replaced id registry stored reg arcs hit c = elim (Option-cases (next_generation reg)) [
    | inl e ↦ rw (e, replace) c
    | inr ((g, reg'), e) ↦
        let now : g ≡ reg.next_generation = ground arith in
        let later : reg' ≡ record reg { next_generation = suc reg.next_generation } =
          ground arith in
        rw (e, later, now, replace, store)
          (record {
            counted = c.counted ∙ sym (map.len-insert_old id _ stored reg.envs hit);
            bounded = c.bounded;
            handed_out = λ j s h. ground (
              arith,
              c.handed_out j s,
              map.get-insert id (build_environment id reg.next_generation registry arcs).0 reg.envs
                  j,
            );
          })
  ]

  slot_reserved :
      (id : ℕ) (reg reg' : EnvironmentRegistry M)
      → reserve_environment_slot id reg ≡ ok reg'
      → (reg' ≡ record reg { environment_count = suc reg.environment_count })
        × (suc reg.environment_count ≤ reg.max_environments)
  unfolding reserve_environment_slot
  slot_reserved id reg reg' h = (ground arith, ground arith)

  vacant_created :
      (id : ℕ) (registry : Option ℕ) (reg : EnvironmentRegistry M) (arcs : Arcs)
      → map.get reg.envs id ≡ none
      → IsCounted reg
      → IsCounted (create_vacant map id registry reg arcs).1.0
  unfolding create_vacant next_generation store build_environment
  vacant_created id registry reg arcs vacant c = elim (Option-cases (next_generation reg)) [
    | inl e ↦ rw (e, create_vacant) c
    | inr ((g, reg'), e) ↦
        let next : next_generation reg
            ≡ some (reg.next_generation, record reg { next_generation = suc reg.next_generation }) =
          ground arith in
        elim (Result-cases (
          reserve_environment_slot id (record reg { next_generation = suc reg.next_generation }))) [
            | inr (x, full) ↦
                rw (next, full, create_vacant)
                  (record {
                    counted = c.counted;
                    bounded = c.bounded;
                    handed_out = λ j s h. ground (arith, c.handed_out j s);
                  })
            | inl (reg'', free) ↦
                let (charged, below) = slot_reserved id _ reg'' free in
                rw (next, free, charged, create_vacant, store)
                  (record {
                    counted = ground (
                      arith,
                      c.counted,
                      map.len-insert_new id
                          (build_environment id reg.next_generation registry arcs).0 reg.envs
                          vacant,
                    );
                    bounded = below;
                    handed_out = λ j s h. ground (
                      arith,
                      c.handed_out j s,
                      map.get-insert id (build_environment id reg.next_generation registry arcs).0
                          reg.envs j,
                    );
                  })
          ]
  ]

  create-IsCounted :
      (id : ℕ) (registry : Option ℕ) (reg : EnvironmentRegistry M) (arcs : Arcs)
      → IsCounted reg
      → IsCounted (create_atomic map id registry reg arcs).1.0
  unfolding create_atomic create_occupied
  create-IsCounted id registry reg arcs c = elim (Option-cases (map.get reg.envs id)) [
    | inl vacant ↦ rw (vacant, create_atomic) (vacant_created id registry reg arcs vacant c)
    | inr (stored, hit) ↦ elim (Option-cases (upgrade_outer stored.canonical arcs)) [
      | inr (arcs', up) ↦ rw (hit, up, create_atomic, create_occupied) c
      | inl gone ↦ elim (Option-cases (upgrade_inner stored.inner arcs)) [
        | inr (arcs', up) ↦
            rw (hit, gone, up, create_atomic, create_occupied) (recanonical id _ stored reg hit c)
        | inl dead ↦
            rw (hit, gone, dead, create_atomic, create_occupied)
              (replaced id registry stored reg arcs hit c)
      ]
    ]
  ]

  get-IsCounted :
      (id : ℕ) (reg : EnvironmentRegistry M) (arcs : Arcs)
      → IsCounted reg
      → IsCounted (get map id reg arcs).1.0
  unfolding get get_occupied
  get-IsCounted id reg arcs c = elim (Option-cases (map.get reg.envs id)) [
    | inl vacant ↦ rw (vacant, get) c
    | inr (stored, hit) ↦ elim (Option-cases (upgrade_outer stored.canonical arcs)) [
      | inr (arcs', up) ↦ rw (hit, up, get, get_occupied) c
      | inl gone ↦ elim (Option-cases (upgrade_inner stored.inner arcs)) [
        | inr (arcs', up) ↦
            rw (hit, gone, up, get, get_occupied) (recanonical id _ stored reg hit c)
        | inl dead ↦ rw (hit, gone, dead, get, get_occupied) c
      ]
    ]
  ]

  slot_released :
      (id : ℕ) (stored : StoredEnvironment) (reg : EnvironmentRegistry M)
      → map.get reg.envs id ≡ some stored
      → IsCounted reg
      → release_environment_slot reg
        ≡ some (record reg { environment_count = map.len (map.remove id reg.envs) })
  unfolding release_environment_slot
  slot_released id stored reg hit c =
      let count : reg.environment_count ≡ suc (map.len (map.remove id reg.envs)) =
        c.counted ∙ sym (map.len-remove id stored reg.envs hit) in
      rw (count, release_environment_slot) refl

  release-IsCounted :
      (id generation : ℕ) (reg : EnvironmentRegistry M)
      → IsCounted reg
      → (was : Bool) × (reg' : EnvironmentRegistry M) × (release_generation map id generation reg
          ≡ some (was, reg'))
        × IsCounted reg'
  unfolding release_generation
  release-IsCounted id generation reg c = elim (Option-cases (map.get reg.envs id)) [
    | inl vacant ↦ (false, reg, rw (vacant, release_generation) refl, c)
    | inr (stored, hit) ↦ elim (Bool-cases (stored.generation == generation)) [
      | inr other ↦ (false, reg, rw (hit, other, release_generation) refl, c)
      | inl same ↦ (
        true,
        record reg {
          environment_count = map.len (map.remove id reg.envs);
          envs = map.remove id reg.envs;
        },
        rw (hit, same, slot_released id stored reg hit c, release_generation) refl,
        record {
          counted = refl;
          bounded = ground (arith, c.counted, c.bounded, map.len-remove id stored reg.envs hit);
          handed_out = λ j s h. ground (arith, c.handed_out j s, map.get-remove id reg.envs j);
        },
      )
    ]
  ]

  unfoldable pub step : Call → EnvironmentRegistry M → Arcs → Option (EnvironmentRegistry M × Arcs)
  step (create id registry) reg arcs = some (create_atomic map id registry reg arcs).1
  step (lookup id) reg arcs = some (get map id reg arcs).1
  step (drop_arc a) reg arcs = some (reg, drop_outer a arcs)
  step (drop_value i) reg arcs = some (reg, drop_inner i arcs)
  step (destroy id generation) reg arcs = elim (release_generation map id generation reg) [
    | none ↦ none
    | some (was, reg') ↦ some (reg', arcs)
  ]

  unfoldable pub run :
      List Call → EnvironmentRegistry M → Arcs → Option (EnvironmentRegistry M × Arcs)
  run [] reg arcs = some (reg, arcs)
  run (c ∷ cs) reg arcs = elim (step c reg arcs) [
    | none ↦ none
    | some (reg', arcs') ↦ run cs reg' arcs'
  ]

  step-IsCounted :
      (call : Call) (reg : EnvironmentRegistry M) (arcs : Arcs)
      → IsCounted reg
      → (reg' : EnvironmentRegistry M) × (arcs' : Arcs) × (step call reg arcs ≡ some (reg', arcs'))
        × IsCounted reg'
  unfolding step
  step-IsCounted (create id registry) reg arcs c =
      (_, _, refl, create-IsCounted id registry reg arcs c)
  step-IsCounted (lookup id) reg arcs c = (_, _, refl, get-IsCounted id reg arcs c)
  step-IsCounted (drop_arc a) reg arcs c = (reg, _, refl, c)
  step-IsCounted (drop_value i) reg arcs c = (reg, _, refl, c)
  step-IsCounted (destroy id generation) reg arcs c =
      let (was, reg', e, c') = release-IsCounted id generation reg c in
      (reg', arcs, rw (e, step) refl, c')

  -- Any calls in any order on a registry with right counters, among them the drop of any lifetime,
  -- however late or often: none panics, and after them the registry counts exactly the environments
  -- that it holds, no more than its limit, each of a generation that it has handed out.
  pub run-IsCounted :
      (calls : List Call) (reg : EnvironmentRegistry M) (arcs : Arcs)
      → IsCounted reg
      → (reg' : EnvironmentRegistry M) × (arcs' : Arcs) × (run calls reg arcs ≡ some (reg', arcs'))
        × IsCounted reg'
  unfolding run
  run-IsCounted [] reg arcs c = (reg, arcs, refl, c)
  run-IsCounted (call ∷ calls) reg arcs c =
      let (next, left, e, d) = step-IsCounted call reg arcs c in
      let (reg', arcs', e', d') = run-IsCounted calls next left d in
      (reg', arcs', rw (e, run) e', d')
