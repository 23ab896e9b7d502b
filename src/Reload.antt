-- ===== src/Reload.antt =====
-- crates/lunatic-process/src/hot_reload.rs: `ReloadCoordinator`, and the acknowledgements of
-- crates/lunatic-process/src/lib.rs. The text of a process's failure is a number, its identity. What
-- the processes answer before the deadline of a phase is a list of replies in the order in which
-- they arrive; a reply of `none` is a channel that closed. Whether a signal could be delivered is a
-- parameter.
pub mod Collecting
pub mod Coordinated
pub mod Targets
pub mod Confirmed
pub mod Outcomes
mod Examples
use lunatic.Prelude.{
  ℕ, List, [], ◌∷◌, ◌++◌, Option, none, some, Bool, true, false, not, ltb, ◌==◌, if◌then◌else◌,
  contains,
}
use lunatic.External.ConcurrentMap.{ConcurrentMap}
use lunatic.ModuleRegistry.{sort_dedup}

pub data ProcessReloadStatus : Type 0 where
  applied already_at_target : ProcessReloadStatus
  failed : ℕ → ProcessReloadStatus

unfoldable pub is_success : ProcessReloadStatus → Bool
is_success applied = true
is_success already_at_target = true
is_success (failed text) = false

pub record ReloadAcknowledgement : Type 0 where
  pub process_id : ℕ
  pub module_id : ℕ
  pub previous_version : ℕ
  pub current_version : ℕ
  pub status : ProcessReloadStatus

pub data Problem : Type 0 where
  reported_process reported_module failed_with : ℕ → Problem
  reported_version : ℕ → ℕ → Problem
  channel_closed timed_out : Problem

pub record ProcessReloadError : Type 0 where
  pub process_id : ℕ
  pub message : Problem
  pub known_version : Option ℕ

pub data ReloadStatus : Type 0 where
  applying : ReloadStatus
  rolling_back : List ProcessReloadError → ReloadStatus
  committed : List ReloadAcknowledgement → ReloadStatus
  rolled_back : List ProcessReloadError → List ReloadAcknowledgement → ReloadStatus
  in_doubt :
      List ProcessReloadError → List ProcessReloadError → List ReloadAcknowledgement → ReloadStatus

unfoldable pub blocks_new_operation : ReloadStatus → Bool
blocks_new_operation applying = true
blocks_new_operation (rolling_back errors) = true
blocks_new_operation (in_doubt apply roll acks) = true
blocks_new_operation (committed acks) = false
blocks_new_operation (rolled_back errors acks) = false

pub record ReloadOperation : Type 0 where
  pub affected_processes : List ℕ
  pub status : ReloadStatus

pub data Error : Type 0 where
  blocked : ℕ → ReloadStatus → Error
  no_operation : ℕ → Error
  not_committed : ℕ → List ProcessReloadError → Error
  still_in_doubt : ℕ → List ProcessReloadError → List ProcessReloadError → Error

pub record AcknowledgementCollection : Type 0 where
  pub acknowledgements : List ReloadAcknowledgement
  pub errors : List ProcessReloadError

-- The checks of an acknowledgement, in their order.
unfoldable pub status_error : ℕ → ℕ → ProcessReloadStatus → Option Problem
status_error current target (failed text) = some (failed_with text)
status_error current target applied =
    if current == target then none else some (reported_version current target)
status_error current target already_at_target =
    if current == target then none else some (reported_version current target)

unfoldable pub protocol_error : ℕ → ℕ → ℕ → ReloadAcknowledgement → Option Problem
protocol_error process_id module_id target_version ack =
    if not (ack.process_id == process_id)
    then some (reported_process ack.process_id)
    else if not (ack.module_id == module_id)
    then some (reported_module ack.module_id)
    else status_error ack.current_version target_version ack.status

abbrev pub Reply : Type 0
Reply = ℕ × Option ReloadAcknowledgement

unfoldable pub take_reply :
    ℕ → ℕ → ℕ → Option ReloadAcknowledgement → AcknowledgementCollection → AcknowledgementCollection
take_reply module_id target_version process_id none c = record c {
  errors =
      c.errors
      ++ record { process_id = process_id; message = channel_closed; known_version = none } ∷ [];
}
take_reply module_id target_version process_id (some ack) c =
    elim (protocol_error process_id module_id target_version ack) [
      | none ↦ record c { acknowledgements = c.acknowledgements ++ ack ∷ [] }
      | some message ↦ record c {
        errors =
            c.errors
            ++ record {
              process_id = process_id;
              message = message;
              known_version = some ack.current_version;
            }
              ∷ [];
      }
    ]

-- `pending_ids.remove`: the ids are distinct.
unfoldable pub remove_one : ℕ → List ℕ → List ℕ
remove_one a [] = []
remove_one a (x ∷ xs) = if x == a then xs else x ∷ remove_one a xs

-- The loop until the deadline, or until nothing is pending; a receiver that is done is gone.
unfoldable pub collect_loop :
    ℕ → ℕ → List Reply → List ℕ → AcknowledgementCollection → List ℕ × AcknowledgementCollection
collect_loop module_id target_version [] pending c = (pending, c)
collect_loop module_id target_version ((process_id, reply) ∷ replies) pending c =
    elim (contains process_id pending) [
      | true ↦
          collect_loop module_id target_version replies (remove_one process_id pending)
            (take_reply module_id target_version process_id reply c)
      | false ↦ collect_loop module_id target_version replies pending c
    ]

unfoldable pub time_outs : List ℕ → List ProcessReloadError
time_outs [] = []
time_outs (id ∷ ids) =
    record { process_id = id; message = timed_out; known_version = none } ∷ time_outs ids

-- `sort_by_key`, which keeps the order of equal keys.
module _ {A : Type 0} (key : A → ℕ) where
  unfoldable pub insert_by_key : A → List A → List A
  insert_by_key a [] = a ∷ []
  insert_by_key a (x ∷ xs) = if ltb (key x) (key a) then x ∷ insert_by_key a xs else a ∷ x ∷ xs

  unfoldable pub sort_by_key : List A → List A
  sort_by_key [] = []
  sort_by_key (x ∷ xs) = insert_by_key x (sort_by_key xs)

unfoldable pub collect_acknowledgements : List ℕ → List Reply → ℕ → ℕ → AcknowledgementCollection
collect_acknowledgements receivers replies module_id target_version =
    let (pending, c) =
      collect_loop module_id target_version replies receivers
        (record { acknowledgements = []; errors = [] }) in
    record {
      acknowledgements =
          sort_by_key (λ (a : ReloadAcknowledgement). a.process_id) c.acknowledgements;
      errors =
          sort_by_key (λ (e : ProcessReloadError). e.process_id) (c.errors ++ time_outs pending);
    }

pub data Request : Type 0 where
  hot_reload roll_back : (module_id expected_version target_version : ℕ) → Request

-- Signals that cannot be delivered close their channels at once.
unfoldable pub dispatch : (ℕ → Request → Bool) → Request → List ℕ → List Reply
dispatch deliver request [] = []
dispatch deliver request (id ∷ ids) =
    let rest = dispatch deliver request ids in
    if deliver id request then rest else (id, none) ∷ rest

module _ {O : Type 0} (operations : ConcurrentMap ReloadOperation O) where
  unfoldable pub insert_operation : ℕ → List ℕ → O → O
  insert_operation module_id affected ops =
      operations.insert module_id
        (record { affected_processes = sort_dedup affected; status = applying }) ops

  -- The operations after the call, with the error when it fails.
  unfoldable pub start_reload : ℕ → List ℕ → O → Option Error × O
  start_reload module_id affected ops = elim (operations.get ops module_id) [
    | none ↦ (none, insert_operation module_id affected ops)
    | some operation ↦
        if blocks_new_operation operation.status
        then (some (blocked module_id operation.status), ops)
        else (none, insert_operation module_id affected ops)
  ]

  unfoldable pub status : ℕ → O → Option ReloadStatus
  status module_id ops = elim (operations.get ops module_id) [
    | none ↦ none
    | some operation ↦ some operation.status
  ]

  unfoldable pub is_reload_in_progress : ℕ → O → Bool
  is_reload_in_progress module_id ops = elim (operations.get ops module_id) [
    | none ↦ false
    | some operation ↦ blocks_new_operation operation.status
  ]

  unfoldable pub get_affected_processes : ℕ → O → Option (List ℕ)
  get_affected_processes module_id ops = elim (operations.get ops module_id) [
    | none ↦ none
    | some operation ↦ some operation.affected_processes
  ]

  unfoldable pub set_status : ℕ → ReloadStatus → O → Option Error × O
  set_status module_id status ops = elim (operations.get ops module_id) [
    | none ↦ (some (no_operation module_id), ops)
    | some operation ↦
        (none, operations.insert module_id (record operation { status = status }) ops)
  ]

  -- `set_status(...).await?` before a call that ends with `result`.
  unfoldable pub finish : ℕ → ReloadStatus → Option Error → O → Option Error × O
  finish module_id status result ops =
      let (failure, ops') = set_status module_id status ops in
      elim failure [ some e ↦ (some e, ops') | none ↦ (result, ops') ]

  -- What answers a coordinator: whether a signal is delivered, and the replies of both phases.
  module _ (deliver : ℕ → Request → Bool) (apply_replies rollback_replies : List Reply) where
    unfoldable pub roll_back_phase :
        ℕ → ℕ → ℕ → List ℕ → List ProcessReloadError → O → Option Error × O
    roll_back_phase module_id old_version new_version targets apply_errors ops =
        let (failure, ops') = set_status module_id (rolling_back apply_errors) ops in
        let rollback =
          collect_acknowledgements targets
            (dispatch deliver (roll_back module_id new_version old_version) targets
              ++ rollback_replies)
            module_id old_version in
        let ended : Option Error × O = elim rollback.errors [
          | [] ↦
              finish module_id (rolled_back apply_errors rollback.acknowledgements)
                (some (not_committed module_id apply_errors)) ops'
          | e ∷ es ↦
              finish module_id (in_doubt apply_errors rollback.errors rollback.acknowledgements)
                (some (still_in_doubt module_id apply_errors rollback.errors)) ops'
        ] in
        elim failure [ some e ↦ (some e, ops') | none ↦ ended ]

    unfoldable pub apply_phase : ℕ → ℕ → ℕ → List ℕ → O → Option Error × O
    apply_phase module_id old_version new_version targets ops =
        let apply =
          collect_acknowledgements targets
            (dispatch deliver (hot_reload module_id old_version new_version) targets
              ++ apply_replies)
            module_id new_version in
        elim apply.errors [
          | [] ↦ finish module_id (committed apply.acknowledgements) none ops
          | e ∷ es ↦ roll_back_phase module_id old_version new_version targets apply.errors ops
        ]

    unfoldable pub perform_atomic_reload : ℕ → ℕ → ℕ → List ℕ → O → Option Error × O
    perform_atomic_reload module_id old_version new_version affected ops =
        let (failure, ops') = start_reload module_id affected ops in
        elim failure [
          | some e ↦ (some e, ops')
          | none ↦ elim (get_affected_processes module_id ops') [
            | none ↦ (some (no_operation module_id), ops')
            | some targets ↦ apply_phase module_id old_version new_version targets ops'
          ]
        ]
