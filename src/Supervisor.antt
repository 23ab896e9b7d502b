-- ===== src/Supervisor.antt =====
-- crates/lunatic-otp-patterns/src/supervisor.rs: a supervisor starts, stops and restarts children.
-- Names of children, start functions and processes are numbers, their identities; the map of the
-- children is an association list. The environment, the start functions of the children and the
-- signals that are sent to them change a world `W` behind an interface, which the supervisor takes
-- as a parameter.
pub mod Restarts
pub mod Process
pub mod Tracker
pub mod Moving
pub mod Intensity
pub mod Effects
pub mod Stopping
pub mod Starting
pub mod Renewals
pub mod Strategies
pub mod Orphans
mod Examples
use lunatic.Prelude.{
  ℕ, zero, suc, ◌+◌, ◌-◌, ◌^◌, ◌≡◌, List, [], ◌∷◌, Option, none, some, Bool, true, false, not, ◌&&◌,
  if◌then◌else◌, ◌==◌, ltb, is_some, min,
}
use lunatic.Prelude.Maps

pub data RestartStrategy : Type 0 where
  one_for_one one_for_all rest_for_one simple_one_for_one : RestartStrategy

pub data RestartPolicy : Type 0 where
  permanent transient temporary : RestartPolicy

pub data ShutdownPolicy : Type 0 where
  brutal infinity : ShutdownPolicy
  timeout : ℕ → ShutdownPolicy

pub data ChildType : Type 0 where
  worker supervisor : ChildType

pub data ExitReason : Type 0 where
  normal crash killed shut_down : ExitReason

pub record ChildSpec : Type 0 where
  pub id : ℕ
  pub start : ℕ
  pub restart : RestartPolicy
  pub shutdown : ShutdownPolicy
  pub child_type : ChildType

pub record SupervisorSpec : Type 0 where
  pub strategy : RestartStrategy
  pub max_restarts : ℕ
  pub max_seconds : ℕ
  pub children : List ChildSpec

pub record ChildState : Type 0 where
  pub spec : ChildSpec
  pub process : Option ℕ
  pub restart_count : ℕ

pub record RestartEvent : Type 0 where
  pub timestamp : ℕ
  pub child_id : ℕ

pub record Supervisor : Type 0 where
  pub spec : SupervisorSpec
  pub children : List (ℕ × ChildState)
  pub restart_history : List RestartEvent
  pub monitor : Option ℕ
  pub cleanup_tracker : Option (List ℕ)

pub data Error : Type 0 where
  no_runtime : Error
  not_found not_started start_failed : ℕ → Error
  already_running monitor_failed monitor_timed_out unregistered : (child process : ℕ) → Error
  stop_failed stop_timed_out : (child process : ℕ) → Error
  intensity_exceeded : (existing requested : ℕ) → Error

pub data Result {ℓ} (A : Type ℓ) : Type ℓ where
  ok : A → Result A
  err : Error → Result A

-- How a request to monitor a process is answered.
pub data MonitorReply : Type 0 where
  acknowledged not_sent silent : MonitorReply

unfoldable pub sleeps : {W : Type 0} → (W → W) → ℕ → W → W
sleeps sleep zero w = w
sleeps sleep (suc n) w = sleeps sleep n (sleep w)

-- What the supervisor uses of its environment and of its children. `start` runs a start function,
-- `none` when it fails or panics; `looks` is how often a wait looks at a process before a limit has
-- passed. A process that takes its kill signal is gone in the end, so that a wait without a limit
-- ends.
pub record Runtime (W : Type 0) : Type 0 where
  pub multi_thread : W → Bool
  pub registered : W → ℕ → Bool
  pub terminal : W → ℕ → Bool
  pub start : ℕ → W → Option ℕ × W
  pub request_monitor : (process monitor : ℕ) → W → MonitorReply × W
  pub kill : ℕ → W → Bool × W
  pub sleep : W → W
  pub looks : Option ℕ → ℕ → W → ℕ
  pub gone_at_last :
      (process : ℕ) (w : W)
      → (kill process w).0 ≡ true
      → registered (sleeps sleep (looks none process (kill process w).1) (kill process w).1) process
        ≡ false

unfoldable pub brutal_shutdown_timeout : ℕ
brutal_shutdown_timeout = 5000

unfoldable pub stop_limit : ShutdownPolicy → Option ℕ
unfolding brutal_shutdown_timeout
stop_limit brutal = some brutal_shutdown_timeout
stop_limit (timeout milliseconds) = some milliseconds
stop_limit infinity = none

unfoldable pub find_spec : ℕ → List ChildSpec → Option ChildSpec
find_spec id [] = none
find_spec id (c ∷ cs) = if c.id == id then some c else find_spec id cs

unfoldable pub child_process : ℕ → List (ℕ × ChildState) → Option ℕ
child_process id children = elim (Maps.get children id) [ none ↦ none | some state ↦ state.process ]

-- `spec.children` that have a process, in their order.
unfoldable pub held : List ChildSpec → List (ℕ × ChildState) → List ℕ
held [] children = []
held (c ∷ cs) children =
    let rest = held cs children in
    elim (child_process c.id children) [ none ↦ rest | some p ↦ p ∷ rest ]

unfoldable pub refresh_cleanup_tracker : Supervisor → Supervisor
refresh_cleanup_tracker s = elim s.cleanup_tracker [
  | none ↦ s
  | some tracked ↦ record s { cleanup_tracker = some (held s.spec.children s.children) }
]

-- `state.process = None`, of a child that has a state.
unfoldable pub clear_process : ℕ → Supervisor → Supervisor
clear_process id s = elim (Maps.get s.children id) [
  | none ↦ s
  | some state ↦ record s { children = Maps.put id (record state { process = none }) s.children }
]

unfoldable pub saturating_suc : ℕ → ℕ
saturating_suc n = min (n + 1) (2 ^ 32 - 1)

unfoldable pub install : ℕ → ChildSpec → ℕ → Bool → Supervisor → Supervisor
install id spec process is_restart s = elim (Maps.get s.children id) [
  | some state ↦ record s {
    children =
        Maps.put id
          (record {
            spec = spec;
            process = some process;
            restart_count =
                if is_restart then saturating_suc state.restart_count else state.restart_count;
          })
          s.children;
  }
  | none ↦ record s {
    children =
        Maps.put id
          (record {
            spec = spec;
            process = some process;
            restart_count = if is_restart then 1 else 0;
          })
          s.children;
  }
]

module _ {W : Type 0} (runtime : Runtime W) where
  -- Whether the process is gone, given how many more looks there are before the limit.
  unfoldable pub wait_for_process_exit : ℕ → ℕ → W → Bool × W
  wait_for_process_exit zero process w = (not (runtime.registered w process), w)
  wait_for_process_exit (suc looks) process w =
      let later = wait_for_process_exit looks process (runtime.sleep w) in
      if runtime.registered w process then later else (true, w)

  unfoldable pub kill_and_wait : ℕ → W → W
  kill_and_wait process w =
      let (sent, w1) = runtime.kill process w in
      (wait_for_process_exit (runtime.looks (some brutal_shutdown_timeout) process w1) process w1).1

  -- The checks of a new process: its monitor, or without one that it is registered.
  unfoldable pub attach : ℕ → ℕ → Option ℕ → W → Option Error × W
  attach id process (some monitor) w =
      let (reply, w1) = runtime.request_monitor process monitor w in
      elim reply [
        | acknowledged ↦ (none, w1)
        | not_sent ↦ (some (monitor_failed id process), kill_and_wait process w1)
        | silent ↦ (some (monitor_timed_out id process), kill_and_wait process w1)
      ]
  attach id process none w =
      if not (runtime.registered w process) && not (runtime.terminal w process)
      then (some (unregistered id process), (runtime.kill process w).1)
      else (none, w)

  unfoldable pub launch : ℕ → ChildSpec → Bool → Supervisor → W → Result ℕ × Supervisor × W
  launch id spec is_restart s w =
      let (started, w1) = runtime.start spec.start w in
      elim started [
        | none ↦ (err (start_failed id), s, w1)
        | some process ↦
            let (failure, w2) = attach id process s.monitor w1 in
            elim failure [
              | some e ↦ (err e, s, w2)
              | none ↦
                  (ok process, refresh_cleanup_tracker (install id spec process is_restart s), w2)
            ]
      ]

  -- The process of a child, where it is registered.
  unfoldable pub running : ℕ → Supervisor → W → Option ℕ
  running id s w = elim (child_process id s.children) [
    | none ↦ none
    | some process ↦ if runtime.registered w process then some process else none
  ]

  unfoldable pub start_child_internal : ℕ → Bool → Supervisor → W → Result ℕ × Supervisor × W
  start_child_internal id is_restart s w =
      if not (runtime.multi_thread w)
      then (err no_runtime, s, w)
      else elim (find_spec id s.spec.children) [
        | none ↦ (err (not_found id), s, w)
        | some spec ↦ elim (running id s w) [
          | some process ↦ (err (already_running id process), s, w)
          | none ↦ launch id spec is_restart (refresh_cleanup_tracker (clear_process id s)) w
        ]
      ]

  unfoldable pub stop_registered :
      ℕ → ChildState → ℕ → Supervisor → W → Option Error × Supervisor × W
  stop_registered id state process s w =
      let (sent, w1) = runtime.kill process w in
      let (gone, w2) =
        wait_for_process_exit (runtime.looks (stop_limit state.spec.shutdown) process w1) process
          w1 in
      if not sent
      then (some (stop_failed id process), s, w1)
      else if gone
      then (none, refresh_cleanup_tracker (clear_process id s), w2)
      else (some (stop_timed_out id process), s, w2)

  unfoldable pub stop_child : ℕ → Supervisor → W → Option Error × Supervisor × W
  stop_child id s w =
      if not (runtime.multi_thread w)
      then (some no_runtime, s, w)
      else elim (Maps.get s.children id) [
        | none ↦ (some (not_started id), s, w)
        | some state ↦ elim state.process [
          | none ↦ (none, s, w)
          | some process ↦
              if runtime.registered w process
              then stop_registered id state process s w
              else (none, refresh_cleanup_tracker (clear_process id s), w)
        ]
      ]
