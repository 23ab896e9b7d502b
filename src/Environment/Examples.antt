-- ===== src/Environment/Examples.antt =====
-- Environments at concrete values.
use lunatic.Prelude.{ℕ, ◌≡◌, refl, List, [], ◌∷◌, Option, none, some, true, false, arith}
use lunatic.External.ConcurrentMap.{assoc}
use lunatic.Environment.{
  LunaticEnvironment, NodeProcessQuota, ProcessEntry, ok, add_process, remove_process,
  reserve_process_slot, reserve,
}
use lunatic.Environment.Slots.{IsCharged, Admission, add_process-Admission}
use lunatic.Environment.Removal.{Removal, remove_process-Removal}
use lunatic.Environment.Node
use lunatic.Environment.Node.{Node, Call, open_env, add, remove, drop_env, run, Sound}
use lunatic.Environment.Node.Run.{run-Sound}
use lunatic.Environment.Registration.{
  ProcessRegistration, World, register_with_exit_hook, drop, IsBack, drop-register,
}
use lunatic.Environment.Generations
use lunatic.Environment.Generations.{
  StoredEnvironment, EnvironmentRegistry, Arcs, create_atomic, release_generation,
}
use lunatic.Environment.Generations.Counting
use lunatic.Environment.Generations.Counting.{create, destroy, run-IsCounted}
use lunatic.Environment.Generations.Replacing.{release-create}

-- One process of two, on a node where three of four are taken.
abbrev env : LunaticEnvironment (List (ℕ × ProcessEntry))
env = record {
  environment_id = 7;
  processes = (1, record { process = 100; node_lease = true }) ∷ [];
  process_count = 1;
  max_processes = some 2;
  module_registry = none;
}

abbrev quota : Option NodeProcessQuota
quota = some (record { count = 3; limit = 4 })

env-IsCharged : IsCharged assoc 2 env quota
env-IsCharged = record {
  counted = refl;
  bounded = λ limit h. ground arith;
  leased = λ id e h. ground arith;
  charged = λ q h. ground arith;
}

add_process-Admission_example :
    Admission assoc 2 5 500 env quota (add_process assoc 5 500 env quota)
add_process-Admission_example = add_process-Admission assoc 2 5 500 env quota env-IsCharged

remove_process-Removal_example : Removal assoc 2 1 env quota (remove_process assoc 1 env quota)
remove_process-Removal_example = remove_process-Removal assoc 2 1 env quota env-IsCharged

abbrev calls : List Call
calls = open_env 7 (some 1) ∷ add 0 1 100 ∷ add 0 2 200 ∷ remove 0 1 ∷ add 0 3 300 ∷ drop_env 0 ∷ []

abbrev new_node : Node (List (ℕ × ProcessEntry))
new_node = record { quota = some (record { count = 0; limit = 4 }); envs = [] }

new_node-Sound : Sound assoc 0 new_node.envs new_node.quota
unfolding Node.total
new_node-Sound = (tt, λ q h. ground arith)

run-Sound_example :
    (node' : Node (List (ℕ × ProcessEntry))) × (run assoc calls new_node ≡ some node')
    × Sound assoc 0 node'.envs node'.quota
run-Sound_example = run-Sound assoc calls new_node new_node-Sound

abbrev world : World (List (ℕ × ProcessEntry))
world = record { env = env; quota = quota; exited = [] }

abbrev world_registered : World (List (ℕ × ProcessEntry))
world_registered = record {
  env = record env {
    processes = (5, record { process = 500; node_lease = true }) ∷ env.processes;
    process_count = 2;
  };
  quota = some (record { count = 4; limit = 4 });
  exited = [];
}

abbrev guard : ProcessRegistration
guard = record { armed = true; process_id = 5; exit_hook = some 9 }

registers : register_with_exit_hook assoc 5 500 (some 9) world ≡ some (ok guard, world_registered)
unfolding register_with_exit_hook add_process reserve_process_slot reserve
registers = refl

drop-register_example :
    (after : World (List (ℕ × ProcessEntry))) × (drop assoc guard world_registered ≡ some after)
    × IsBack assoc (some 9) world after
drop-register_example =
    drop-register assoc 2 5 500 (some 9) world world_registered guard env-IsCharged registers

-- A full registry whose one environment is dead, its drop still to come.
abbrev old : StoredEnvironment
old = record { generation = 1; canonical = 1; inner = 0 }

abbrev registry : EnvironmentRegistry (List (ℕ × StoredEnvironment))
registry = record {
  envs = (7, old) ∷ [];
  environment_count = 1;
  max_environments = 1;
  max_processes_per_environment = 10;
  next_generation = 2;
}

abbrev arcs : Arcs
arcs = record { outers = []; inners = []; next_arc = 2; dropping = (7, 1) ∷ [] }

registry-IsCounted : Counting.IsCounted assoc registry
registry-IsCounted = record {
  counted = refl;
  bounded = omega arith;
  handed_out = λ id s h. ground arith;
}

run-IsCounted_example :
    (reg' : EnvironmentRegistry (List (ℕ × StoredEnvironment))) × (arcs' : Arcs) × (Counting.run
        assoc
        (create 7 none ∷ destroy 7 1 ∷ create 8 none ∷ [])
        registry
        arcs
      ≡ some (reg', arcs'))
    × Counting.IsCounted assoc reg'
run-IsCounted_example =
    run-IsCounted assoc (create 7 none ∷ destroy 7 1 ∷ create 8 none ∷ []) registry arcs
      registry-IsCounted

release-create_example :
    (a : ℕ) × (reg' : EnvironmentRegistry (List (ℕ × StoredEnvironment))) × (arcs' : Arcs)
    × (create_atomic assoc 7 none registry arcs ≡ (ok a, (reg', arcs')))
    × (release_generation assoc 7 1 reg' ≡ some (false, reg'))
    × (reg'.environment_count ≡ 1)
    × ((s : StoredEnvironment) × (assoc.get reg'.envs 7 ≡ some s) × (s.canonical ≡ a))
unfolding Generations.upgrade_outer Generations.upgrade_inner
release-create_example =
    release-create assoc 7 none old registry arcs registry-IsCounted refl refl refl (omega arith)
