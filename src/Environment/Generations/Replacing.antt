-- ===== src/Environment/Generations/Replacing.antt =====
-- An environment that is created while the drop of the last one of its id still waits.
use lunatic.Prelude.{ℕ, suc, ◌^◌, ◌<◌, ◌≡◌, refl, Option, none, some, false, arith, ◌==◌}
use lunatic.External.ConcurrentMap.{ConcurrentMap}
use lunatic.Environment.{ok}
use lunatic.Environment.Generations.{
  StoredEnvironment, EnvironmentRegistry, Arcs, upgrade_outer, upgrade_inner, next_generation,
  build_environment, store, replace, create_occupied, create_atomic, release_generation,
}
use lunatic.Environment.Generations.Counting.{IsCounted}

module _ {M : Type 0} (map : ConcurrentMap StoredEnvironment M) where
  -- An environment whose owners are all gone, of a generation whose drop has not run: creating it
  -- again succeeds without a free slot, so long as generations are left. The late drop of the old
  -- generation then changes nothing: the new environment keeps its entry and its slot.
  pub release-create :
      (id : ℕ) (registry : Option ℕ) (stored : StoredEnvironment) (reg : EnvironmentRegistry M)
      (arcs : Arcs)
      → IsCounted map reg
      → map.get reg.envs id ≡ some stored
      → upgrade_outer stored.canonical arcs ≡ none
      → upgrade_inner stored.inner arcs ≡ none
      → suc reg.next_generation < 2 ^ 64
      → (a : ℕ) × (reg' : EnvironmentRegistry M) × (arcs' : Arcs) × (create_atomic map id registry
            reg arcs
          ≡ (ok a, (reg', arcs')))
        × (release_generation map id stored.generation reg' ≡ some (false, reg'))
        × (reg'.environment_count ≡ reg.environment_count)
        × ((s : StoredEnvironment) × (map.get reg'.envs id ≡ some s) × (s.canonical ≡ a))
  unfolding create_atomic create_occupied replace next_generation store release_generation
      build_environment
  release-create id registry stored reg arcs c hit gone dead left =
      let next : next_generation reg
          ≡ some (reg.next_generation, record reg { next_generation = suc reg.next_generation }) =
        ground arith in
      let built = build_environment id reg.next_generation registry arcs in
      let found : map.get (map.insert id built.0 reg.envs) id ≡ some built.0 =
        ground (arith, map.get-insert id built.0 reg.envs id) in
      let other : (reg.next_generation == stored.generation) ≡ false =
        ground (arith, c.handed_out id stored hit) in
      (
        built.0.canonical,
        record reg {
          envs = map.insert id built.0 reg.envs;
          next_generation = suc reg.next_generation;
        },
        built.1,
        rw (hit, gone, dead, next, create_atomic, create_occupied, replace) refl,
        rw (found, other, release_generation) refl,
        refl,
        (built.0, found, refl),
      )
