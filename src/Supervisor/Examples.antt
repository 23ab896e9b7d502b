-- ===== src/Supervisor/Examples.antt =====
-- The theorems of the supervisor in a world of processes that start and end at once, and runs.
use lunatic.Prelude.{
  ℕ, suc, ◌≡◌, ◌≢◌, ◌≤◌, refl, List, [], ◌∷◌, Option, none, some, true, false, contains, length,
  if◌then◌else◌, ◌==◌, arith,
}
use lunatic.Message as Message
use lunatic.Supervisor.{
  rest_for_one, permanent, brutal, worker, ChildSpec, SupervisorSpec, Supervisor, Error, Runtime,
  acknowledged, sleeps, child_process, start_child_internal, stop_child, stop_registered, attach,
  launch, running, wait_for_process_exit, held, refresh_cleanup_tracker, clear_process, install,
  find_spec, saturating_suc, stop_limit, brutal_shutdown_timeout,
}
use lunatic.Supervisor.Restarts.{
  child_ids, start_children, start_all, stop_all, stop_each, shutdown, shutdown_all,
  handle_process_exit, handle_child_exit, restart_children, reserve_restart_events, retain_events,
  events_at, to_restart, with_active, from_failed, child_of, exit_reason, should_restart,
}
use lunatic.Supervisor.Process.{
  Event, process_died, shutdown_requested, supervisor_process, supervise, escalate,
  with_environment, dropped_guard, Progress, returned,
}
use lunatic.Supervisor.Intensity.{within, reservations, window-limited}
use lunatic.Supervisor.Orphans.{no_orphans}

-- The identity of the next process, and the processes that are registered.
abbrev World : Type 0
World = ℕ × List ℕ

remove_all : ℕ → List ℕ → List ℕ
remove_all p [] = []
remove_all p (x ∷ xs) = let rest = remove_all p xs in if x == p then rest else x ∷ rest

contains-remove_all : (p : ℕ) (xs : List ℕ) → contains p (remove_all p xs) ≡ false
unfolding contains remove_all
contains-remove_all p [] = refl
contains-remove_all p (x ∷ xs) = ground (arith, contains-remove_all p xs)

abbrev at_once : Runtime World
at_once = record {
  multi_thread = λ w. true;
  registered = λ w p. contains p w.1;
  terminal = λ w p. false;
  start = λ f w. (some w.0, (suc w.0, w.0 ∷ w.1));
  request_monitor = λ p m w. (acknowledged, w);
  kill = λ p w. (true, (w.0, remove_all p w.1));
  sleep = λ w. w;
  looks = λ limit p w. 0;
  gone_at_last = gone;
}
  where
    gone :
        (p : ℕ) (w : World)
        → true ≡ true
        → contains p (sleeps (λ (v : World). v) 0 (w.0, remove_all p w.1)).1 ≡ false
    gone p w h = unfold sleeps in contains-remove_all p w.1

abbrev child : ℕ → ChildSpec
child id = record {
  id = id;
  start = id;
  restart = permanent;
  shutdown = brutal;
  child_type = worker;
}

abbrev three : SupervisorSpec
three = record {
  strategy = rest_for_one;
  max_restarts = 3;
  max_seconds = 5;
  children = child 1 ∷ child 2 ∷ child 3 ∷ [];
}

-- Children 1, 2 and 3 run as processes 10, 11 and 12; when process 11 crashes, children 2 and 3 are
-- replaced by processes 13 and 14, and the notice of process 12 is stale.
abbrev crash_of_two : List Event
crash_of_two = process_died 11 Message.failure 100 ∷ process_died 12 Message.failure 101 ∷ []

abbrev processes : Supervisor → List (Option ℕ)
processes s =
    child_process 1 s.children ∷ child_process 2 s.children ∷ child_process 3 s.children ∷ []

abbrev after : List Event → Progress × Supervisor × World
after events = supervisor_process at_once three 9 events (10, [])

runs :
    (processes (after []).1 ≡ some 10 ∷ some 11 ∷ some 12 ∷ [])
    × (processes (after crash_of_two).1 ≡ some 10 ∷ some 13 ∷ some 14 ∷ [])
    × (processes (after (shutdown_requested ∷ [])).1 ≡ none ∷ none ∷ none ∷ [])
unfolding supervisor_process supervise escalate with_environment start_children start_all
    start_child_internal running find_spec child_process clear_process refresh_cleanup_tracker held
    launch attach install stop_each stop_all stop_child stop_registered wait_for_process_exit
    stop_limit brutal_shutdown_timeout shutdown shutdown_all handle_process_exit handle_child_exit
    child_of exit_reason should_restart to_restart with_active from_failed restart_children
    reserve_restart_events retain_events events_at child_ids contains remove_all saturating_suc
runs = (refl, refl, refl)

no_orphans_example :
    (contains 13 (dropped_guard (after crash_of_two).0 (after crash_of_two).1) ≡ true)
    × ((after crash_of_two).0 ≢ returned)
unfolding supervisor_process supervise escalate with_environment start_children start_all
    start_child_internal running find_spec child_process clear_process refresh_cleanup_tracker held
    launch attach install stop_each stop_all stop_child stop_registered wait_for_process_exit
    stop_limit brutal_shutdown_timeout shutdown shutdown_all handle_process_exit handle_child_exit
    child_of exit_reason should_restart to_restart with_active from_failed restart_children
    reserve_restart_events retain_events events_at child_ids contains remove_all saturating_suc
no_orphans_example = no_orphans at_once three 9 crash_of_two (10, []) 2 13 refl

abbrev started : Supervisor
started = (after []).1

abbrev exit_of_two : Option Error × Supervisor × World
exit_of_two = handle_process_exit at_once 11 Message.failure 100 started (after []).2

abbrev requests : List (ℕ × List ℕ)
requests = (1, 1 ∷ 2 ∷ []) ∷ (4, 3 ∷ []) ∷ (6, 1 ∷ []) ∷ (7, 2 ∷ 3 ∷ []) ∷ []

window-limited_example : within 2 5 (reservations requests (with_environment three) []).1 ≤ 3
unfolding with_environment
window-limited_example =
    window-limited requests (with_environment three) 2 refl
      (omega arith, (omega arith, (omega arith, (omega arith, tt))))

-- The request at second 6 is refused: three restarts were granted since second 1.
granted : length (reservations requests (with_environment three) []).1 ≡ 5
unfolding with_environment reservations reserve_restart_events retain_events events_at
granted = refl
