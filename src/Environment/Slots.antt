-- ===== src/Environment/Slots.antt =====
-- The process slots of an environment and its share of the node's quota: `add_process` and
-- `remove_process` on every branch.
use lunatic.Prelude.{
  ℕ, suc, ◌+◌, ◌-◌, ◌≤◌, ◌^◌, ◌≡◌, ◌⊎◌, inl, inr, refl, ◌∙◌, Option, none, some, Bool, true, false,
  arith, if◌then◌else◌, ◌==◌, is_some, Option-cases,
}
use lunatic.External.ConcurrentMap.{ConcurrentMap}
use lunatic.Environment.{
  LunaticEnvironment, NodeProcessQuota, ProcessEntry, Error, Result-cases, ok, err,
  already_registered, process_count_overflow, add_process, get_process, can_spawn_next_process,
  reserve_process_slot, release_process_slot, reserve, insert_process,
}

module _ {M : Type 0} (map : ConcurrentMap ProcessEntry M) where
  -- What the counters promise; `others` are the leases that other environments hold.
  pub record IsCharged (others : ℕ) (env : LunaticEnvironment M) (quota : Option NodeProcessQuota)
      : Type 0 where
    pub counted : env.process_count ≡ map.len env.processes
    pub bounded : (limit : ℕ) → env.max_processes ≡ some limit → env.process_count ≤ limit
    pub leased :
        (id : ℕ) (e : ProcessEntry)
        → map.get env.processes id ≡ some e
        → e.node_lease ≡ is_some quota
    pub charged :
        (q : NodeProcessQuota)
        → quota ≡ some q
        → (q.count ≡ map.len env.processes + others) × (q.count ≤ q.limit)

  -- The outcomes of `add_process`.
  pub data Admission (others id process : ℕ) (env : LunaticEnvironment M)
      (quota : Option NodeProcessQuota)
      : Option (Option Error × (LunaticEnvironment M × Option NodeProcessQuota)) → Type 0 where
    registered :
        (e : ProcessEntry)
        → map.get env.processes id ≡ some e
        → Admission others id process env quota
            (some (some (already_registered id env.environment_id), (env, quota)))
    refused :
        (e : Error)
        → map.get env.processes id ≡ none
        → can_spawn_next_process env quota ≡ some e
        → Admission others id process env quota (some (some e, (env, quota)))
    overflowed :
        env.max_processes ≡ none
        → 2 ^ 64 - 1 ≤ env.process_count
        → Admission others id process env quota
            (some (some (process_count_overflow env.environment_id), (env, quota)))
    admitted :
        (env' : LunaticEnvironment M) (quota' : Option NodeProcessQuota)
        → map.get env.processes id ≡ none
        → can_spawn_next_process env quota ≡ none
        → ((j : ℕ)
            → get_process map j env' ≡ (if id == j then some process else get_process map j env))
        → env'.process_count ≡ suc env.process_count
        → is_some quota' ≡ is_some quota
        → IsCharged others env' quota'
        → Admission others id process env quota (some (none, (env', quota')))

  inserted :
      (others id process : ℕ) (lease : Bool) (env env' : LunaticEnvironment M)
      (quota quota' : Option NodeProcessQuota)
      → IsCharged others env quota
      → map.get env.processes id ≡ none
      → env' ≡ record env { process_count = suc env.process_count }
      → ((limit : ℕ) → env.max_processes ≡ some limit → suc env.process_count ≤ limit)
      → lease ≡ is_some quota
      → is_some quota' ≡ is_some quota
      → ((q : NodeProcessQuota)
          → quota' ≡ some q
          → (q.count ≡ suc (map.len env.processes) + others) × (q.count ≤ q.limit))
      → can_spawn_next_process env quota ≡ none
      → Admission others id process env quota
          (some (none, (insert_process map id process lease env', quota')))
  unfolding insert_process get_process
  inserted others id process lease env env' quota quota' c vacant e below has node_same node spawn =
      rw e (
        admitted _ quota' vacant spawn
          (λ j. ground (
            arith,
            map.get-insert id (record { process = process; node_lease = lease }) env.processes j,
          ))
          refl node_same
          (record {
            counted = ground (
              arith,
              c.counted,
              map.len-insert_new id (record { process = process; node_lease = lease }) env.processes
                  vacant,
            );
            bounded = below;
            leased = λ j x h. ground (
              arith,
              c.leased j x,
              map.get-insert id (record { process = process; node_lease = lease }) env.processes j,
            );
            charged = λ q h. ground (
              arith,
              node q h,
              map.len-insert_new id (record { process = process; node_lease = lease }) env.processes
                  vacant,
            );
          }))

  slot_reserved :
      (env env' : LunaticEnvironment M)
      → reserve_process_slot env ≡ ok env'
      → (env' ≡ record env { process_count = suc env.process_count })
        × ((limit : ℕ) → env.max_processes ≡ some limit → suc env.process_count ≤ limit)
        × (can_spawn_next_process env none ≡ none)
  unfolding reserve_process_slot can_spawn_next_process
  slot_reserved env env' h = (ground arith, (λ limit e. ground arith), ground arith)

  slot_refused :
      (env : LunaticEnvironment M) (e : Error)
      → reserve_process_slot env ≡ err e
      → (can_spawn_next_process env none ≡ some e)
        ⊎ ((e ≡ process_count_overflow env.environment_id)
            × (env.max_processes ≡ none)
            × (2 ^ 64 - 1 ≤ env.process_count))
  unfolding reserve_process_slot can_spawn_next_process
  slot_refused env e h = ground arith

  -- The node's quota is tested after the limit of the environment.
  can_spawn_first :
      (env : LunaticEnvironment M) (quota : Option NodeProcessQuota) (e : Error)
      → can_spawn_next_process env none ≡ some e
      → can_spawn_next_process env quota ≡ some e
  unfolding can_spawn_next_process
  can_spawn_first env none e h = h
  can_spawn_first env (some q) e h = ground arith

  can_spawn_then :
      (env : LunaticEnvironment M) (q : NodeProcessQuota)
      → can_spawn_next_process env none ≡ none
      → can_spawn_next_process env (some q)
        ≡ elim (reserve env.environment_id q) [ ok q' ↦ none | err e ↦ some e ]
  unfolding can_spawn_next_process reserve
  can_spawn_then env q h = ground arith

  released :
      (env : LunaticEnvironment M)
      → release_process_slot (record env { process_count = suc env.process_count }) ≡ some env
  unfolding release_process_slot
  released env = refl

  reserved :
      (others : ℕ) (q q' : NodeProcessQuota) (id n : ℕ)
      → reserve id q ≡ ok q'
      → q.count ≡ n + others
      → (q'.count ≡ suc n + others) × (q'.count ≤ q'.limit)
  unfolding reserve
  reserved others q q' id n h c = ground arith

  -- What comes after a slot is reserved.
  added :
      (others id process : ℕ) (env : LunaticEnvironment M) (quota : Option NodeProcessQuota)
      → IsCharged others env quota
      → map.get env.processes id ≡ none
      → (env' : LunaticEnvironment M) → reserve_process_slot env ≡ ok env'
      → Admission others id process env quota (add_process map id process env quota)
  unfolding add_process
  added others id process env none c vacant env' h =
      let (same, below, spawn) = slot_reserved env env' h in
      rw (vacant, h, add_process)
        (inserted others id process false env env' none none c vacant same below refl refl
          (λ q e. ground (arith, c.charged q e)) spawn)
  added others id process env (some q) c vacant env' h =
      let (same, below, spawn) = slot_reserved env env' h in
      elim (Result-cases (reserve env.environment_id q)) [
        | inl (q', took) ↦
            let (counted, within) =
              reserved others q q' env.environment_id (map.len env.processes) took
                (c.charged q refl).0 in
            rw (vacant, h, took, add_process)
              (inserted others id process true env env' (some q) (some q') c vacant same below refl
                refl (λ r e. ground (arith, counted, within))
                (can_spawn_then env q spawn ∙ rw took refl))
        | inr (e, full) ↦
            rw (vacant, h, full, same, released env, add_process)
              (refused e vacant (can_spawn_then env q spawn ∙ rw full refl))
      ]

  -- A call of `add_process` on counters that are right never panics. It refuses an id that is
  -- registered; then, exactly as `can_spawn_next_process` foretells, a process beyond the limit of
  -- the environment or of the node, or one that the counter of an environment without a limit cannot
  -- count; all of these leave everything as it was. It registers any other process, changes no
  -- other, and the counters are right after.
  pub add_process-Admission :
      (others id process : ℕ) (env : LunaticEnvironment M) (quota : Option NodeProcessQuota)
      → IsCharged others env quota
      → Admission others id process env quota (add_process map id process env quota)
  unfolding add_process
  add_process-Admission others id process env quota c =
      elim (Option-cases (map.get env.processes id)) [
        | inr (e, hit) ↦ rw (hit, add_process) (registered e hit)
        | inl vacant ↦ elim (Result-cases (reserve_process_slot env)) [
          | inr (e, h) ↦ rw (vacant, h, add_process) (slotless vacant e (slot_refused env e h))
          | inl (env', h) ↦ added others id process env quota c vacant env' h
        ]
      ]
    where
      slotless :
          map.get env.processes id ≡ none
          → (e : Error)
          → (can_spawn_next_process env none ≡ some e)
            ⊎ ((e ≡ process_count_overflow env.environment_id)
                × (env.max_processes ≡ none)
                × (2 ^ 64 - 1 ≤ env.process_count))
          → Admission others id process env quota (some (some e, (env, quota)))
      slotless vacant e (inl full) = refused e vacant (can_spawn_first env quota e full)
      slotless vacant e (inr (same, unlimited, top)) = rw same (overflowed unlimited top)
