-- ===== src/Supervisor/Restarts.antt =====
-- crates/lunatic-otp-patterns/src/supervisor.rs: the operations on all children, the restart
-- strategies and the restart intensity. The time in seconds is an argument. A failed stop of a child
-- that was started before a failure is ignored, as in the source.
use lunatic.Prelude.{
  ℕ, ◌+◌, ◌-◌, List, [], ◌∷◌, ◌++◌, Option, none, some, Bool, true, false, not, ◌||◌, if◌then◌else◌,
  ◌==◌, ltb, leb, is_some, length, reverse,
}
use lunatic.Prelude.Maps
use lunatic.Message.{DeathReason}
use lunatic.Message as Message
use lunatic.Supervisor.{
  RestartStrategy, one_for_one, one_for_all, rest_for_one, simple_one_for_one, RestartPolicy,
  permanent, transient, temporary, ExitReason, normal, crash, killed, shut_down, ChildSpec,
  ChildState, ChildType, worker, supervisor, RestartEvent, Supervisor, Error, not_found,
  intensity_exceeded, Result, ok, err, Runtime, child_process, start_child_internal, stop_child,
}

unfoldable pub child_ids : List ChildSpec → List ℕ
child_ids [] = []
child_ids (c ∷ cs) = c.id ∷ child_ids cs

unfoldable pub retain_events : ℕ → List RestartEvent → List RestartEvent
retain_events window_start [] = []
retain_events window_start (e ∷ es) =
    let rest = retain_events window_start es in
    if leb window_start e.timestamp then e ∷ rest else rest

unfoldable pub events_at : ℕ → List ℕ → List RestartEvent
events_at now [] = []
events_at now (id ∷ ids) = record { timestamp = now; child_id = id } ∷ events_at now ids

unfoldable pub reserve_restart_events : List ℕ → ℕ → Supervisor → Option Error × Supervisor
reserve_restart_events ids now s =
    let kept = retain_events (now - s.spec.max_seconds) s.restart_history in
    if ltb s.spec.max_restarts (length kept + length ids)
    then (some (intensity_exceeded (length kept) (length ids)), record s { restart_history = kept })
    else (none, record s { restart_history = kept ++ events_at now ids })

unfoldable pub should_restart : RestartPolicy → ExitReason → Bool
should_restart permanent reason = true
should_restart transient normal = false
should_restart transient crash = true
should_restart transient killed = true
should_restart transient shut_down = true
should_restart temporary reason = false

-- The failed child, and the others that have a process.
unfoldable pub with_active : ℕ → List ChildSpec → List (ℕ × ChildState) → List ℕ
with_active id [] children = []
with_active id (c ∷ cs) children =
    let rest = with_active id cs children in
    if c.id == id || is_some (child_process c.id children) then c.id ∷ rest else rest

-- `children[failed_index..]`.
unfoldable pub from_failed : ℕ → List ChildSpec → Option (List ChildSpec)
from_failed id [] = none
from_failed id (c ∷ cs) = if c.id == id then some (c ∷ cs) else from_failed id cs

unfoldable pub to_restart :
    RestartStrategy → ℕ → List ChildSpec → List (ℕ × ChildState) → Option (List ℕ)
to_restart one_for_one id specs children = some (id ∷ [])
to_restart simple_one_for_one id specs children = some (id ∷ [])
to_restart one_for_all id specs children = some (with_active id specs children)
to_restart rest_for_one id specs children = elim (from_failed id specs) [
  | none ↦ none
  | some later ↦ some (with_active id later children)
]

-- The child whose process has this identity.
unfoldable pub child_of : ℕ → List (ℕ × ChildState) → Option ℕ
child_of process [] = none
child_of process ((id, state) ∷ children) =
    let rest = child_of process children in
    elim state.process [ none ↦ rest | some p ↦ if p == process then some id else rest ]

unfoldable pub exit_reason : DeathReason → ExitReason
exit_reason Message.normal = normal
exit_reason Message.failure = crash
exit_reason Message.no_process = crash

module _ {W : Type 0} (runtime : Runtime W) where
  unfoldable pub start_child : ℕ → Supervisor → W → Result ℕ × Supervisor × W
  start_child id s w = start_child_internal runtime id false s w

  -- Stops that ignore their errors.
  unfoldable pub stop_each : List ℕ → Supervisor → W → Supervisor × W
  stop_each [] s w = (s, w)
  stop_each (id ∷ ids) s w = let (e, s1, w1) = stop_child runtime id s w in stop_each ids s1 w1

  -- Stops up to the first error.
  unfoldable pub stop_all : List ℕ → Supervisor → W → Option Error × Supervisor × W
  stop_all [] s w = (none, s, w)
  stop_all (id ∷ ids) s w =
      let (failure, s1, w1) = stop_child runtime id s w in
      elim failure [ some e ↦ (some e, s1, w1) | none ↦ stop_all ids s1 w1 ]

  -- `started` are those that this call started, the last one first.
  unfoldable pub start_all : Bool → List ℕ → List ℕ → Supervisor → W → Option Error × Supervisor × W
  start_all is_restart [] started s w = (none, s, w)
  start_all is_restart (id ∷ ids) started s w =
      let (result, s1, w1) = start_child_internal runtime id is_restart s w in
      elim result [
        | err e ↦ let (s2, w2) = stop_each started s1 w1 in (some e, s2, w2)
        | ok process ↦ start_all is_restart ids (id ∷ started) s1 w1
      ]

  unfoldable pub start_children : Supervisor → W → Option Error × Supervisor × W
  start_children s w = start_all false (child_ids s.spec.children) [] s w

  unfoldable pub restart_children : List ℕ → ℕ → Supervisor → W → Option Error × Supervisor × W
  restart_children ids now s w =
      let (refused, s1) = reserve_restart_events ids now s in
      let (failure, s2, w2) = stop_all (reverse ids) s1 w in
      let restarted = start_all true ids [] s2 w2 in
      elim refused [
        | some e ↦ (some e, s1, w)
        | none ↦ elim failure [ some e ↦ (some e, s2, w2) | none ↦ restarted ]
      ]

  unfoldable pub handle_child_exit :
      ℕ → ExitReason → ℕ → Supervisor → W → Option Error × Supervisor × W
  handle_child_exit id reason now s w = elim (Maps.get s.children id) [
    | none ↦ (some (not_found id), s, w)
    | some state ↦
        if not (should_restart state.spec.restart reason)
        then stop_child runtime id s w
        else elim (to_restart s.spec.strategy id s.spec.children s.children) [
          | none ↦ (some (not_found id), s, w)
          | some ids ↦ restart_children ids now s w
        ]
  ]

  unfoldable pub handle_process_exit :
      ℕ → DeathReason → ℕ → Supervisor → W → Option Error × Supervisor × W
  handle_process_exit process reason now s w = elim (child_of process s.children) [
    | none ↦ (none, s, w)
    | some id ↦ handle_child_exit id (exit_reason reason) now s w
  ]

  -- The loop of `shutdown`, over the children in reverse order.
  unfoldable pub shutdown_all : List ℕ → Supervisor → W → Option Error × Supervisor × W
  shutdown_all [] s w = (none, s, w)
  shutdown_all (id ∷ ids) s w =
      let (failure, s1, w1) = stop_child runtime id s w in
      let rest = shutdown_all ids s1 w1 in
      if is_some (Maps.get s.children id)
      then elim failure [ some e ↦ (some e, s1, w1) | none ↦ rest ]
      else shutdown_all ids s w

  unfoldable pub shutdown : Supervisor → W → Option Error × Supervisor × W
  shutdown s w = shutdown_all (reverse (child_ids s.spec.children)) s w

pub record ChildInfo : Type 0 where
  pub id : ℕ
  pub process_id : Option ℕ
  pub child_type : ChildType
  pub restart_count : ℕ

unfoldable pub which_children : List ChildSpec → List (ℕ × ChildState) → List ChildInfo
which_children [] children = []
which_children (c ∷ cs) children =
    let rest = which_children cs children in
    elim (Maps.get children c.id) [
      | none ↦ rest
      | some state ↦
          record {
            id = c.id;
            process_id = state.process;
            child_type = state.spec.child_type;
            restart_count = state.restart_count;
          }
          ∷ rest
    ]

pub record ChildrenCount : Type 0 where
  pub specs : ℕ
  pub active : ℕ
  pub supervisors : ℕ
  pub workers : ℕ

unfoldable pub count_type : ChildType → List ChildSpec → ℕ
count_type t [] = 0
count_type worker (c ∷ cs) =
    let rest = count_type worker cs in elim c.child_type [ worker ↦ rest + 1 | supervisor ↦ rest ]
count_type supervisor (c ∷ cs) =
    let rest = count_type supervisor cs in
    elim c.child_type [ worker ↦ rest | supervisor ↦ rest + 1 ]

module _ {W : Type 0} (runtime : Runtime W) where
  unfoldable pub count_active : List (ℕ × ChildState) → W → ℕ
  count_active [] w = 0
  count_active ((id, state) ∷ children) w =
      let rest = count_active children w in
      elim state.process [
        | none ↦ rest
        | some process ↦ if runtime.registered w process then rest + 1 else rest
      ]

  unfoldable pub count_children : Supervisor → W → ChildrenCount
  count_children s w = record {
    specs = length s.spec.children;
    active = count_active s.children w;
    supervisors = count_type supervisor s.spec.children;
    workers = count_type worker s.spec.children;
  }
