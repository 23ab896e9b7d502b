-- ===== src/Environment/Node/Run.antt =====
-- The invariant of a node's environments under any calls.
use lunatic.Prelude.{
  ℕ, zero, suc, ◌+◌, ◌≡◌, refl, sym, ap, subst, List, [], ◌∷◌, Option, none, some, Bool, arith,
  is_some, All,
}
use lunatic.External.ConcurrentMap.{ConcurrentMap}
use lunatic.Environment.{
  LunaticEnvironment, Error, NodeProcessQuota, ProcessEntry, add_process, remove_process,
  with_node_options, drop_lease,
}
use lunatic.Environment.Slots.{
  IsCharged, Admission, registered, refused, overflowed, admitted, add_process-Admission,
}
use lunatic.Environment.Removal.{Removal, absent, removed, remove_process-Removal}
use lunatic.Environment.Node.{
  Node, Call, open_env, add, remove, drop_env, drop_leases, drop_entries, on, total, teardown,
  added_in, removed_in, node_of, step, run, IsCounted, Sound,
}

module _ {M : Type 0} (map : ConcurrentMap ProcessEntry M) where
  abbrev pub Keeps :
      (LunaticEnvironment M
        → Option NodeProcessQuota
        → Option (LunaticEnvironment M × Option NodeProcessQuota))
      → Type 0
  Keeps f =
      (others : ℕ) (env : LunaticEnvironment M) (quota : Option NodeProcessQuota)
      → IsCharged map others env quota
      → (env' : LunaticEnvironment M) × (quota' : Option NodeProcessQuota) × (f env quota
          ≡ some (env', quota'))
        × (is_some quota' ≡ is_some quota)
        × IsCharged map others env' quota'

  added_in-Keeps : (id process : ℕ) → Keeps (added_in map id process)
  unfolding added_in
  added_in-Keeps id process others env quota c =
      go _ refl (add_process-Admission map others id process env quota c)
    where
      go :
          (r : Option (Option Error × (LunaticEnvironment M × Option NodeProcessQuota)))
          → add_process map id process env quota ≡ r
          → Admission map others id process env quota r
          → (env' : LunaticEnvironment M) × (quota' : Option NodeProcessQuota) × (added_in map id
                process env quota
              ≡ some (env', quota'))
            × (is_some quota' ≡ is_some quota)
            × IsCharged map others env' quota'
      go r e (registered x h) = (env, quota, rw (e, added_in) refl, refl, c)
      go r e (refused x h s) = (env, quota, rw (e, added_in) refl, refl, c)
      go r e (overflowed h s) = (env, quota, rw (e, added_in) refl, refl, c)
      go r e (admitted env' quota' h s o p same c') =
          (env', quota', rw (e, added_in) refl, same, c')

  removed_in-Keeps : (id : ℕ) → Keeps (removed_in map id)
  unfolding removed_in
  removed_in-Keeps id others env quota c =
      go _ refl (remove_process-Removal map others id env quota c)
    where
      go :
          (r : Option (Bool × (LunaticEnvironment M × Option NodeProcessQuota)))
          → remove_process map id env quota ≡ r
          → Removal map others id env quota r
          → (env' : LunaticEnvironment M) × (quota' : Option NodeProcessQuota) × (removed_in map id
                env quota
              ≡ some (env', quota'))
            × (is_some quota' ≡ is_some quota)
            × IsCharged map others env' quota'
      go r e (absent h) = (env, quota, rw (e, removed_in) refl, refl, c)
      go r e (removed x env' quota' h s o same c') =
          (env', quota', rw (e, removed_in) refl, same, c')

  dropped_leases :
      (n others : ℕ) (q : NodeProcessQuota)
      → q.count ≡ n + others
      → drop_leases n q ≡ some (record q { count = others })
  unfolding drop_leases drop_lease
  dropped_leases zero others q h =
      let e : q.count ≡ others = omega (arith, h) in ap (λ (k : ℕ). some (record q { count = k })) e
  dropped_leases (suc n) others q h =
      rw (slot h) (dropped_leases n others (record q { count = n + others }) refl)
    where
      slot : q.count ≡ suc n + others → q.count ≡ suc (n + others)
      slot e = omega arith

  teardown-Keeps : Keeps (teardown map)
  unfolding teardown drop_entries
  teardown-Keeps others env none c = (
    record env { processes = map.empty; process_count = 0 },
    none,
    refl,
    refl,
    record {
      counted = sym map.len-empty;
      bounded = λ limit h. omega arith;
      leased = λ id e h. ground (arith, map.get-empty id);
      charged = λ q h. ground arith;
    },
  )
  teardown-Keeps others env (some q) c =
      let (count, within) = c.charged q refl in
      let back = dropped_leases (map.len env.processes) others q count in
      (
        record env { processes = map.empty; process_count = 0 },
        some (record q { count = others }),
        rw (back, teardown) refl,
        refl,
        record {
          counted = sym map.len-empty;
          bounded = λ limit h. omega arith;
          leased = λ id e h. ground (arith, map.get-empty id);
          charged = λ r h. ground (arith, map.len-empty, count, within);
        },
      )

  on-Sound :
      (i : ℕ)
      (f : LunaticEnvironment M
        → Option NodeProcessQuota
        → Option (LunaticEnvironment M × Option NodeProcessQuota))
      → Keeps f
      → (others : ℕ) (envs : List (LunaticEnvironment M)) (quota : Option NodeProcessQuota)
      → Sound map others envs quota
      → (envs' : List (LunaticEnvironment M)) × (quota' : Option NodeProcessQuota) × (on i f envs
            quota
          ≡ some (envs', quota'))
        × (is_some quota' ≡ is_some quota)
        × Sound map others envs' quota'
  unfolding on total
  on-Sound i f keeps others [] quota s = ([], quota, refl, refl, s)
  on-Sound zero f keeps others (env ∷ envs) quota ((own, rest), node) =
      let (env', quota', e, same, c) = keeps (total map envs + others) env quota (record {
        counted = own.counted;
        bounded = own.bounded;
        leased = own.leased_all;
        charged = λ q h. ground (arith, node q h);
      }) in
      (
        env' ∷ envs,
        quota',
        rw (e, on) refl,
        same,
        (
          (
            record { counted = c.counted; bounded = c.bounded; leased_all = c.leased },
            subst (λ b. All (IsCounted map b) envs) (sym same) rest,
          ),
          λ q h. ground (arith, c.charged q h),
        ),
      )
  on-Sound (suc i) f keeps others (env ∷ envs) quota ((own, rest), node) =
      let (envs', quota', e, same, (rest', node')) =
        on-Sound i f keeps (map.len env.processes + others) envs quota
          (rest, λ q h. ground (arith, node q h)) in
      (
        env ∷ envs',
        quota',
        rw (e, on) refl,
        same,
        (
          (subst (λ b. IsCounted map b env) (sym same) own, rest'),
          λ q h. ground (arith, node' q h),
        ),
      )

  node_of-Sound :
      (r : Option (List (LunaticEnvironment M) × Option NodeProcessQuota))
      → ((envs' : List (LunaticEnvironment M)) × (quota' : Option NodeProcessQuota) × (r
            ≡ some (envs', quota'))
          × Sound map 0 envs' quota')
      → (node' : Node M) × (node_of map r ≡ some node') × Sound map 0 node'.envs node'.quota
  unfolding node_of
  node_of-Sound r (envs', quota', e, s) =
      (record { quota = quota'; envs = envs' }, rw (e, node_of) refl, s)

  on_node :
      (i : ℕ)
      (f : LunaticEnvironment M
        → Option NodeProcessQuota
        → Option (LunaticEnvironment M × Option NodeProcessQuota))
      → Keeps f
      → (node : Node M) → Sound map 0 node.envs node.quota
      → (node' : Node M) × (node_of map (on i f node.envs node.quota) ≡ some node')
        × Sound map 0 node'.envs node'.quota
  on_node i f keeps node s =
      let (envs', quota', e, same, s') = on-Sound i f keeps 0 node.envs node.quota s in
      node_of-Sound _ (envs', quota', e, s')

  pub step-Sound :
      (call : Call) (node : Node M)
      → Sound map 0 node.envs node.quota
      → (node' : Node M) × (step map call node ≡ some node') × Sound map 0 node'.envs node'.quota
  unfolding step with_node_options total
  step-Sound (open_env id limit) node (own, quota) = (
    _,
    refl,
    (
      (
        record {
          counted = sym map.len-empty;
          bounded = λ l h. omega arith;
          leased_all = λ j e h. ground (arith, map.get-empty j);
        },
        own,
      ),
      λ q h. ground (arith, quota q h, map.len-empty),
    ),
  )
  step-Sound (add i id process) node s = on_node i _ (added_in-Keeps id process) node s
  step-Sound (remove i id) node s = on_node i _ (removed_in-Keeps id) node s
  step-Sound (drop_env i) node s = on_node i _ teardown-Keeps node s

  -- Any calls in any order, from counters that are right, on environments that share a quota or
  -- that have none: none panics. After them every environment counts exactly its processes, no more
  -- than its limit, and the quota counts exactly the processes of all environments, no more than
  -- the node's limit.
  pub run-Sound :
      (calls : List Call) (node : Node M)
      → Sound map 0 node.envs node.quota
      → (node' : Node M) × (run map calls node ≡ some node') × Sound map 0 node'.envs node'.quota
  unfolding run
  run-Sound [] node s = (node, refl, s)
  run-Sound (call ∷ calls) node s =
      let (next, e, t) = step-Sound call node s in
      let (node', e', t') = run-Sound calls next t in (node', rw (e, run) e', t')
