-- ===== src/Environment/Node.antt =====
-- The environments of a node, which share its process quota, under any calls.
pub mod Run
use lunatic.Prelude.{
  ℕ, zero, suc, ◌+◌, ◌≤◌, ◌≡◌, refl, sym, ap, ◌∙◌, List, [], ◌∷◌, Option, none, some, Bool, true,
  arith, is_some, All,
}
use lunatic.External.ConcurrentMap.{ConcurrentMap}
use lunatic.Environment.{
  LunaticEnvironment, Error, NodeProcessQuota, ProcessEntry, add_process, remove_process,
  with_node_options, new_quota, drop_lease, checked_sub,
}
use lunatic.Environment.Slots.{
  IsCharged, Admission, registered, refused, overflowed, admitted, add_process-Admission,
}
use lunatic.Environment.Removal.{Removal, absent, removed, remove_process-Removal}

pub record Node (M : Type 0) : Type 0 where
  pub quota : Option NodeProcessQuota
  pub envs : List (LunaticEnvironment M)

-- `drop_env` is the end of an environment's last owner.
pub data Call : Type 0 where
  open_env : ℕ → Option ℕ → Call
  add : ℕ → ℕ → ℕ → Call
  remove : ℕ → ℕ → Call
  drop_env : ℕ → Call

-- The drop of a map with `n` entries drops the lease of each.
unfoldable pub drop_leases : ℕ → NodeProcessQuota → Option NodeProcessQuota
drop_leases zero q = some q
drop_leases (suc n) q = elim (drop_lease q) [ none ↦ none | some q' ↦ drop_leases n q' ]

unfoldable pub drop_entries : ℕ → Option NodeProcessQuota → Option (Option NodeProcessQuota)
drop_entries n none = some none
drop_entries n (some q) = elim (drop_leases n q) [ none ↦ none | some q' ↦ some (some q') ]

module _ {M : Type 0} where
  -- A call on one of the environments; one that is gone takes none.
  unfoldable pub on :
      ℕ
      → (LunaticEnvironment M
          → Option NodeProcessQuota
          → Option (LunaticEnvironment M × Option NodeProcessQuota))
      → List (LunaticEnvironment M)
      → Option NodeProcessQuota
      → Option (List (LunaticEnvironment M) × Option NodeProcessQuota)
  on i f [] quota = some ([], quota)
  on zero f (env ∷ envs) quota = elim (f env quota) [
    | none ↦ none
    | some (env', quota') ↦ some (env' ∷ envs, quota')
  ]
  on (suc i) f (env ∷ envs) quota =
      let rest = on i f envs quota in
      elim rest [ none ↦ none | some (envs', quota') ↦ some (env ∷ envs', quota') ]

module _ {M : Type 0} (map : ConcurrentMap ProcessEntry M) where
  unfoldable pub total : List (LunaticEnvironment M) → ℕ
  total [] = 0
  total (env ∷ envs) = map.len env.processes + total envs

  -- The environment is left without processes.
  unfoldable pub teardown :
      LunaticEnvironment M
      → Option NodeProcessQuota
      → Option (LunaticEnvironment M × Option NodeProcessQuota)
  teardown env quota = elim (drop_entries (map.len env.processes) quota) [
    | none ↦ none
    | some quota' ↦ some (record env { processes = map.empty; process_count = 0 }, quota')
  ]

  unfoldable pub added_in :
      ℕ
      → ℕ
      → LunaticEnvironment M
      → Option NodeProcessQuota
      → Option (LunaticEnvironment M × Option NodeProcessQuota)
  added_in id process env quota = elim (add_process map id process env quota) [
    | none ↦ none
    | some (e, r) ↦ some r
  ]

  unfoldable pub removed_in :
      ℕ
      → LunaticEnvironment M
      → Option NodeProcessQuota
      → Option (LunaticEnvironment M × Option NodeProcessQuota)
  removed_in id env quota = elim (remove_process map id env quota) [
    | none ↦ none
    | some (b, r) ↦ some r
  ]

  unfoldable pub node_of :
      Option (List (LunaticEnvironment M) × Option NodeProcessQuota) → Option (Node M)
  node_of none = none
  node_of (some (envs, quota)) = some (record { quota = quota; envs = envs })

  unfoldable pub step : Call → Node M → Option (Node M)
  step (open_env id limit) node =
      some (record node { envs = with_node_options map id limit none ∷ node.envs })
  step (add i id process) node = node_of (on i (added_in id process) node.envs node.quota)
  step (remove i id) node = node_of (on i (removed_in id) node.envs node.quota)
  step (drop_env i) node = node_of (on i teardown node.envs node.quota)

  unfoldable pub run : List Call → Node M → Option (Node M)
  run [] node = some node
  run (c ∷ cs) node = elim (step c node) [ none ↦ none | some node' ↦ run cs node' ]

  pub record IsCounted (leased : Bool) (env : LunaticEnvironment M) : Type 0 where
    pub counted : env.process_count ≡ map.len env.processes
    pub bounded : (limit : ℕ) → env.max_processes ≡ some limit → env.process_count ≤ limit
    pub leased_all :
        (id : ℕ) (e : ProcessEntry) → map.get env.processes id ≡ some e → e.node_lease ≡ leased

  -- What holds on a node: the counters of every environment count its processes, at most as many as
  -- it may have, and the quota counts the processes of all of them, at most its limit.
  abbrev pub Sound : ℕ → List (LunaticEnvironment M) → Option NodeProcessQuota → Type 0
  Sound others envs quota =
      All (IsCounted (is_some quota)) envs
      × ((q : NodeProcessQuota)
          → quota ≡ some q
          → (q.count ≡ total envs + others) × (q.count ≤ q.limit))
