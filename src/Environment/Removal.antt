-- ===== src/Environment/Removal.antt =====
-- `remove_process`, on both branches, and the two halves of a process's stay.
use lunatic.Prelude.{
  ℕ, suc, ◌+◌, ◌≤◌, ◌≡◌, inl, inr, refl, sym, ◌∙◌, Option, none, some, Bool, true, false, arith,
  if◌then◌else◌, ◌==◌, is_some, Option-cases,
}
use lunatic.External.ConcurrentMap.{ConcurrentMap}
use lunatic.Environment.{
  LunaticEnvironment, NodeProcessQuota, ProcessEntry, remove_process, get_process,
  release_process_slot, drop_entry, drop_lease,
}
use lunatic.Environment.Slots.{IsCharged}

module _ {M : Type 0} (map : ConcurrentMap ProcessEntry M) where
  -- The outcomes of `remove_process`.
  pub data Removal (others id : ℕ) (env : LunaticEnvironment M) (quota : Option NodeProcessQuota)
      : Option (Bool × (LunaticEnvironment M × Option NodeProcessQuota)) → Type 0 where
    absent :
        map.get env.processes id ≡ none → Removal others id env quota (some (false, (env, quota)))
    removed :
        (e : ProcessEntry) (env' : LunaticEnvironment M) (quota' : Option NodeProcessQuota)
        → map.get env.processes id ≡ some e
        → ((j : ℕ) → get_process map j env' ≡ (if id == j then none else get_process map j env))
        → suc env'.process_count ≡ env.process_count
        → is_some quota' ≡ is_some quota
        → IsCharged map others env' quota'
        → Removal others id env quota (some (true, (env', quota')))

  slot_back :
      (env : LunaticEnvironment M) (m : M) (n : ℕ)
      → env.process_count ≡ suc n
      → release_process_slot (record env { processes = m })
        ≡ some (record env { processes = m; process_count = n })
  unfolding release_process_slot
  slot_back env m n h = rw h refl

  lease_back :
      (others n : ℕ) (e : ProcessEntry) (q : NodeProcessQuota)
      → e.node_lease ≡ true
      → q.count ≡ suc (n + others)
      → drop_entry e (some q) ≡ some (some (record q { count = n + others }))
  unfolding drop_entry drop_lease
  lease_back others n e q lease h = rw (lease, h) refl

  shrunk :
      (others id : ℕ) (env : LunaticEnvironment M) (quota quota' : Option NodeProcessQuota)
      (e : ProcessEntry)
      → IsCharged map others env quota
      → map.get env.processes id ≡ some e
      → is_some quota' ≡ is_some quota
      → ((q : NodeProcessQuota)
          → quota' ≡ some q
          → (q.count ≡ map.len (map.remove id env.processes) + others) × (q.count ≤ q.limit))
      → Removal others id env quota (
          some (
            true,
            (
              record env {
                processes = map.remove id env.processes;
                process_count = map.len (map.remove id env.processes);
              },
              quota',
            ),
          ))
  unfolding get_process
  shrunk others id env quota quota' e c hit same node =
      removed e _ quota' hit (λ j. ground (arith, map.get-remove id env.processes j))
        (map.len-remove id e env.processes hit ∙ sym c.counted) same
        (record {
          counted = refl;
          bounded = λ limit h.
              ground (arith, c.bounded limit h, c.counted, map.len-remove id e env.processes hit);
          leased = λ j x h. ground (arith, c.leased j x, map.get-remove id env.processes j);
          charged = node;
        })

  slot_of :
      (others id : ℕ) (env : LunaticEnvironment M) (quota : Option NodeProcessQuota)
      (e : ProcessEntry)
      → IsCharged map others env quota
      → map.get env.processes id ≡ some e
      → env.process_count ≡ suc (map.len (map.remove id env.processes))
  slot_of others id env quota e c hit = c.counted ∙ sym (map.len-remove id e env.processes hit)

  taken :
      (others id : ℕ) (env : LunaticEnvironment M) (quota : Option NodeProcessQuota)
      (e : ProcessEntry)
      → IsCharged map others env quota
      → map.get env.processes id ≡ some e
      → Removal others id env quota (remove_process map id env quota)
  unfolding remove_process drop_entry
  taken others id env none e c hit =
      let slot =
        slot_back env (map.remove id env.processes) _ (slot_of others id env none e c hit) in
      rw (hit, slot, remove_process)
        (shrunk others id env none none e c hit refl (λ q h. ground arith))
  taken others id env (some q) e c hit =
      let slot =
        slot_back env (map.remove id env.processes) _ (slot_of others id env (some q) e c hit) in
      let (count, within) = c.charged q refl in
      let less = map.len-remove id e env.processes hit in
      let lease =
        lease_back others (map.len (map.remove id env.processes)) e q (c.leased id e hit)
          (omega (arith, count, less)) in
      rw (hit, slot, lease, remove_process)
        (shrunk others id env (some q) _ e c hit refl (λ r h. ground (arith, count, within, less)))

  -- A call of `remove_process` on counters that are right never panics. It says whether the process
  -- was registered; if it was, it is not after, no other process changes, and its slots in the
  -- environment and in the node are free again.
  pub remove_process-Removal :
      (others id : ℕ) (env : LunaticEnvironment M) (quota : Option NodeProcessQuota)
      → IsCharged map others env quota
      → Removal others id env quota (remove_process map id env quota)
  unfolding remove_process
  remove_process-Removal others id env quota c = elim (Option-cases (map.get env.processes id)) [
    | inl vacant ↦ rw (vacant, remove_process) (absent vacant)
    | inr (e, hit) ↦ taken others id env quota e c hit
  ]
