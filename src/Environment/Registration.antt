-- ===== src/Environment/Registration.antt =====
-- `ProcessRegistration`, of crates/lunatic-process/src/env.rs: the guard of a process's membership.
-- An exit hook is a number, its identity; a call of it is recorded.
use lunatic.Prelude.{
  ℕ, suc, ◌≡◌, refl, arith, if◌then◌else◌, ◌==◌, ==_refl, List, ◌∷◌, Option, none, some, Bool, true,
  false,
}
use lunatic.External.ConcurrentMap.{ConcurrentMap}
use lunatic.Environment.{
  LunaticEnvironment, Error, Result, ok, err, NodeProcessQuota, ProcessEntry, add_process,
  remove_process, get_process,
}
use lunatic.Environment.Slots.{
  IsCharged, Admission, add_process-Admission, admitted, registered, refused, overflowed,
}
use lunatic.Environment.Removal.{Removal, absent, removed, remove_process-Removal}

-- Whether the guard still has its environment.
pub record ProcessRegistration : Type 0 where
  pub armed : Bool
  pub process_id : ℕ
  pub exit_hook : Option ℕ

-- The environment, its quota, and the hooks that have run.
pub record World (M : Type 0) : Type 0 where
  pub env : LunaticEnvironment M
  pub quota : Option NodeProcessQuota
  pub exited : List ℕ

-- `exit_hook.take()` and its call.
abbrev run_hook : Option ℕ → List ℕ → List ℕ
run_hook none exited = exited
run_hook (some hook) exited = hook ∷ exited

module _ {M : Type 0} (map : ConcurrentMap ProcessEntry M) where
  unfoldable pub register_with_exit_hook :
      ℕ → ℕ → Option ℕ → World M → Option (Result ProcessRegistration × World M)
  register_with_exit_hook id process hook world =
      elim (add_process map id process world.env world.quota) [
        | none ↦ none
        | some (some e, (env, quota)) ↦ some (err e, record world { env = env; quota = quota })
        | some (none, (env, quota)) ↦ some (
          ok (record { armed = true; process_id = id; exit_hook = hook }),
          record world { env = env; quota = quota },
        )
      ]

  unfoldable pub register : ℕ → ℕ → World M → Option (Result ProcessRegistration × World M)
  register id process world = register_with_exit_hook id process none world

  -- Whether the process was removed; the guard is disarmed after.
  unfoldable pub unregister_inner :
      ProcessRegistration → World M → Option (Bool × (ProcessRegistration × World M))
  unregister_inner r world =
      let spent : ProcessRegistration = record r { armed = false; exit_hook = none } in
      elim r.armed [
        | false ↦ some (false, (spent, record world { exited = run_hook r.exit_hook world.exited }))
        | true ↦ elim (remove_process map r.process_id world.env world.quota) [
          | none ↦ none
          | some (was, (env, quota)) ↦ some (
            was,
            (
              spent,
              record { env = env; quota = quota; exited = run_hook r.exit_hook world.exited },
            ),
          )
        ]
      ]

  -- `unregister` consumes the guard, which is then dropped.
  unfoldable pub unregister : ProcessRegistration → World M → Option (Bool × World M)
  unregister r world = elim (unregister_inner r world) [
    | none ↦ none
    | some (was, (r', world')) ↦ elim (unregister_inner r' world') [
      | none ↦ none
      | some (again, (r'', world'')) ↦ some (was, world'')
    ]
  ]

  -- `Drop::drop`.
  unfoldable pub drop : ProcessRegistration → World M → Option (World M)
  drop r world = elim (unregister_inner r world) [
    | none ↦ none
    | some (was, (r', world')) ↦ some world'
  ]

  -- Unregistering a guard, the drop that ends it included, does to the environment and to the hooks
  -- what its drop alone does: the hook runs once and the process is removed once.
  pub unregister-drop :
      (r : ProcessRegistration) (world : World M)
      → drop r world ≡ elim (unregister r world) [ none ↦ none | some (was, world') ↦ some world' ]
  unfolding drop unregister unregister_inner
  unregister-drop r world = ground arith

  -- What a stay leaves behind.
  pub record IsBack (hook : Option ℕ) (world world' : World M) : Type 0 where
    pub processes_back : (j : ℕ) → get_process map j world'.env ≡ get_process map j world.env
    pub count_back : world'.env.process_count ≡ world.env.process_count
    pub hook_ran : world'.exited ≡ run_hook hook world.exited

  left :
      (others id process : ℕ) (hook : Option ℕ) (world : World M) (env : LunaticEnvironment M)
      (quota : Option NodeProcessQuota)
      → map.get world.env.processes id ≡ none
      → ((j : ℕ)
          → get_process map j env ≡ (if id == j then some process else get_process map j world.env))
      → env.process_count ≡ suc world.env.process_count
      → (r : Option (Bool × (LunaticEnvironment M × Option NodeProcessQuota)))
      → remove_process map id env quota ≡ r
      → Removal map others id env quota r
      → (world' : World M) × (drop
            (record { armed = true; process_id = id; exit_hook = hook })
            (record { env = env; quota = quota; exited = world.exited })
          ≡ some world')
        × IsBack hook world world'
  unfolding get_process drop unregister_inner
  left others id process hook world env quota vacant grown count r e (absent gone) =
      ground (arith, gone, grown id, ==_refl id)
  left others id process hook world env quota vacant grown count r e
        (removed x env' quota' hit out less same c) =
      (
        record { env = env'; quota = quota'; exited = run_hook hook world.exited },
        rw (e, drop, unregister_inner) refl,
        record {
          processes_back = λ j. ground (arith, out j, grown j, vacant);
          count_back = ground (arith, less, count);
          hook_ran = refl;
        },
      )

  -- A process that registers, on counters that are right, and whose guard is then dropped,
  -- leaves the environment with the processes and the count that it had; its hook ran once.
  pub drop-register :
      (others id process : ℕ) (hook : Option ℕ) (world world' : World M) (r : ProcessRegistration)
      → IsCharged map others world.env world.quota
      → register_with_exit_hook id process hook world ≡ some (ok r, world')
      → (after : World M) × (drop r world' ≡ some after) × IsBack hook world after
  unfolding register_with_exit_hook
  drop-register others id process hook world world' r c h =
      go _ refl (add_process-Admission map others id process world.env world.quota c)
    where
      go :
          (a : Option (Option Error × (LunaticEnvironment M × Option NodeProcessQuota)))
          → add_process map id process world.env world.quota ≡ a
          → Admission map others id process world.env world.quota a
          → (after : World M) × (drop r world' ≡ some after) × IsBack hook world after
      go a e (registered x s) = ground arith
      go a e (refused x s t) = ground arith
      go a e (overflowed s t) = ground arith
      go a e (admitted env quota vacant s grown count same charged) =
          let own : r ≡ record { armed = true; process_id = id; exit_hook = hook } = ground arith in
          let now : world' ≡ record { env = env; quota = quota; exited = world.exited } =
            ground arith in
          rw (own, now)
            (left others id process hook world env quota vacant grown count _ refl
              (remove_process-Removal map others id env quota charged))
