-- ===== src/Supervisor/Process.antt =====
-- crates/lunatic-otp-patterns/src/supervisor.rs, `Supervisor::spawn_with_environment`: the process
-- that owns a supervisor, and the guard that kills what is left when it ends. What reaches the
-- process is a list of events; where the list ends it waits for the next.
use lunatic.Prelude.{ℕ, List, [], ◌∷◌, none, some, reverse}
use lunatic.Message.{DeathReason}
use lunatic.Supervisor.{SupervisorSpec, Supervisor, Error, Runtime}
use lunatic.Supervisor.Restarts.{start_children, handle_process_exit, shutdown}

pub data Event : Type 0 where
  shutdown_requested other_message : Event
  process_died : (process : ℕ) → DeathReason → (now : ℕ) → Event

-- How far the process has come. An escalation may have a second error, of the shutdown.
pub data Progress : Type 0 where
  waiting returned : Progress
  failed : Error → Progress
  failed_twice : Error → Error → Progress

unfoldable pub with_environment : SupervisorSpec → Supervisor
with_environment spec = record {
  spec = spec;
  children = [];
  restart_history = [];
  monitor = none;
  cleanup_tracker = none;
}

module _ {W : Type 0} (runtime : Runtime W) where
  unfoldable pub escalate : Error → Supervisor → W → Progress × Supervisor × W
  escalate restart_error s w =
      let (failure, s1, w1) = shutdown runtime s w in
      elim failure [
        | none ↦ (failed restart_error, s1, w1)
        | some e ↦ (failed_twice restart_error e, s1, w1)
      ]

  unfoldable pub supervise : List Event → Supervisor → W → Progress × Supervisor × W
  supervise [] s w = (waiting, s, w)
  supervise (shutdown_requested ∷ events) s w =
      let (failure, s1, w1) = shutdown runtime s w in
      elim failure [ none ↦ (returned, s1, w1) | some e ↦ (failed e, s1, w1) ]
  supervise (other_message ∷ events) s w = supervise events s w
  supervise (process_died process reason now ∷ events) s w =
      let (failure, s1, w1) = handle_process_exit runtime process reason now s w in
      let rest = supervise events s1 w1 in elim failure [ none ↦ rest | some e ↦ escalate e s1 w1 ]

  unfoldable pub supervisor_process :
      SupervisorSpec → (process : ℕ) → List Event → W → Progress × Supervisor × W
  supervisor_process spec process events w =
      let s = record (with_environment spec) {
        monitor = some process;
        cleanup_tracker = some [];
      } in
      let (failure, s1, w1) = start_children runtime s w in
      let rest = supervise events s1 w1 in
      elim failure [ none ↦ rest | some e ↦ (failed e, s1, w1) ]

-- The processes that the guard kills when it is dropped, in their order: none after `disarm`.
unfoldable pub dropped_guard : Progress → Supervisor → List ℕ
dropped_guard returned s = []
dropped_guard waiting s = elim s.cleanup_tracker [ none ↦ [] | some children ↦ reverse children ]
dropped_guard (failed e) s = elim s.cleanup_tracker [ none ↦ [] | some children ↦ reverse children ]
dropped_guard (failed_twice e e') s = elim s.cleanup_tracker [
  | none ↦ []
  | some children ↦ reverse children
]
