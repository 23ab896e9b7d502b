-- ===== src/Reload/Outcomes.antt =====
-- crates/lunatic-process/src/hot_reload.rs, `perform_atomic_reload`: how a reload of one module can
-- end.
use lunatic.Prelude.{
  ℕ, ◌≡◌, ◌≢◌, ◌⊎◌, inl, inr, refl, sym, ap, subst, List, [], ◌∷◌, ◌++◌, Option, none, some, Bool,
  true, false, arith, contains, if◌then◌else◌, Bool-cases, Option-cases, All,
}
use lunatic.External.ConcurrentMap.{ConcurrentMap}
use lunatic.ModuleRegistry.{sort_dedup}
use lunatic.Reload.{
  ReloadStatus, committed, rolling_back, rolled_back, in_doubt, applying, ReloadOperation, Error,
  blocked, not_committed, still_in_doubt, AcknowledgementCollection, ProcessReloadError, Reply,
  Request, hot_reload, roll_back, collect_acknowledgements, dispatch, insert_operation,
  start_reload, status, is_reload_in_progress, get_affected_processes, set_status, finish,
  roll_back_phase, apply_phase, blocks_new_operation, perform_atomic_reload,
}
use lunatic.Reload.Collecting.{Confirms, reports, collected-reports, collected-Confirms}
use lunatic.Reload.Targets.{count-sort_dedup}

-- Every affected process is reported once and no other is; every acknowledgement confirms.
pub record Reports (module_id version : ℕ) (affected : List ℕ) (c : AcknowledgementCollection)
    : Type 0 where
  pub confirmed : All (Confirms module_id version) c.acknowledgements
  pub once : (x : ℕ) → reports x c ≡ (if contains x affected then 1 else 0)

collected-Reports :
    (module_id version : ℕ) (affected : List ℕ) (replies : List Reply)
    → Reports module_id version affected
        (collect_acknowledgements (sort_dedup affected) replies module_id version)
collected-Reports module_id version affected replies = record {
  confirmed = collected-Confirms module_id version (sort_dedup affected) replies;
  once = λ x. omega (
    arith,
    collected-reports module_id version x (sort_dedup affected) replies,
    count-sort_dedup x affected,
  );
}

module _ {O : Type 0} (operations : ConcurrentMap ReloadOperation O) where
  -- The module's operation has that status, and the other modules' are those of `before`.
  pub record Holds (module_id : ℕ) (s : ReloadStatus) (before after : O) : Type 0 where
    pub held : status operations module_id after ≡ some s
    pub others : (j : ℕ) → module_id ≢ j → operations.get after j ≡ operations.get before j

  insert-Holds :
      (module_id : ℕ) (o : ReloadOperation) (before after : O)
      → ((j : ℕ) → module_id ≢ j → operations.get after j ≡ operations.get before j)
      → Holds module_id o.status before (operations.insert module_id o after)
  unfolding status
  insert-Holds module_id o before after same = record {
    held = ground (arith, operations.get-insert module_id o after module_id);
    others = λ j other. ground (arith, operations.get-insert module_id o after j, same j other);
  }

  set_status-Holds :
      (module_id : ℕ) (s t : ReloadStatus) (before after : O)
      → Holds module_id s before after
      → ((set_status operations module_id t after).0 ≡ none)
        × Holds module_id t before (set_status operations module_id t after).1
  unfolding status set_status
  set_status-Holds module_id s t before after h =
      elim (Option-cases (operations.get after module_id)) [
        | inl absent ↦ absurd (ground (arith, h.held, absent))
        | inr (o, e) ↦
            rw (e, set_status)
              (refl, insert-Holds module_id (record o { status = t }) before after h.others)
      ]

  -- A module is blocked by its status.
  Holds-blocks :
      (module_id : ℕ) (s : ReloadStatus) (before after : O)
      → Holds module_id s before after
      → is_reload_in_progress operations module_id after ≡ blocks_new_operation s
  unfolding status is_reload_in_progress
  Holds-blocks module_id s before after h = elim (Option-cases (operations.get after module_id)) [
    | inl absent ↦ absurd (ground (arith, h.held, absent))
    | inr (o, e) ↦ ground (arith, h.held, e)
  ]

  pub finish-Holds :
      (module_id : ℕ) (s t : ReloadStatus) (result : Option Error) (before after : O)
      → Holds module_id s before after
      → ((finish operations module_id t result after).0 ≡ result)
        × Holds module_id t before (finish operations module_id t result after).1
  unfolding finish
  finish-Holds module_id s t result before after h =
      let (e, held) = set_status-Holds module_id s t before after h in
      (rw (e, finish) refl, rw (e, finish) held)

  start_reload-known :
      (module_id : ℕ) (affected : List ℕ) (ops : O)
      → is_reload_in_progress operations module_id ops ≡ false
      → (later : O) × (start_reload operations module_id affected ops ≡ (none, later))
        × Holds module_id applying ops later
        × (get_affected_processes operations module_id later ≡ some (sort_dedup affected))
  unfolding start_reload is_reload_in_progress insert_operation get_affected_processes
  start_reload-known module_id affected ops idle =
      let o : ReloadOperation = record {
        affected_processes = sort_dedup affected;
        status = applying;
      } in
      (
        operations.insert module_id o ops,
        ground (arith, idle),
        insert-Holds module_id o ops ops (λ j other. refl),
        ground (arith, operations.get-insert module_id o ops module_id),
      )

  pub start_reload-begins :
      (module_id : ℕ) (affected : List ℕ) (ops : O)
      → is_reload_in_progress operations module_id ops ≡ false
      → ((start_reload operations module_id affected ops).0 ≡ none)
        × Holds module_id applying ops (start_reload operations module_id affected ops).1
        × (get_affected_processes operations module_id
              (start_reload operations module_id affected ops).1
            ≡ some (sort_dedup affected))
  start_reload-begins module_id affected ops idle =
      let (later, e, held, targets) = start_reload-known module_id affected ops idle in
      let same : later ≡ (start_reload operations module_id affected ops).1 =
        sym (ap (λ r. r.1) e) in
      (
        ap (λ r. r.0) e,
        subst (Holds module_id applying ops) same held,
        subst (λ o. get_affected_processes operations module_id o ≡ some (sort_dedup affected)) same
            targets,
      )

  start_reload-blocked :
      (module_id : ℕ) (affected : List ℕ) (ops : O)
      → is_reload_in_progress operations module_id ops ≡ true
      → (s : ReloadStatus) × (status operations module_id ops ≡ some s)
        × (start_reload operations module_id affected ops ≡ (some (blocked module_id s), ops))
  unfolding start_reload is_reload_in_progress status
  start_reload-blocked module_id affected ops busy =
      elim (Option-cases (operations.get ops module_id)) [
        | inl absent ↦ absurd (ground (arith, absent, busy))
        | inr (o, e) ↦ (o.status, ground (arith, e), ground (arith, e, busy))
      ]

  -- How a reload of a module ends: with what error, and which operations after it.
  pub data Outcome (module_id old_version new_version : ℕ) (affected : List ℕ) (ops : O)
      : Option Error × O → Type 0 where
    refused :
        {s : ReloadStatus}
        → is_reload_in_progress operations module_id ops ≡ true
        → status operations module_id ops ≡ some s
        → Outcome module_id old_version new_version affected ops (some (blocked module_id s), ops)
    commits :
        {apply : AcknowledgementCollection} {after : O}
        → is_reload_in_progress operations module_id ops ≡ false
        → Reports module_id new_version affected apply
        → apply.errors ≡ []
        → Holds module_id (committed apply.acknowledgements) ops after
        → is_reload_in_progress operations module_id after ≡ false
        → Outcome module_id old_version new_version affected ops (none, after)
    restores :
        {apply back : AcknowledgementCollection} {after : O}
        → is_reload_in_progress operations module_id ops ≡ false
        → Reports module_id new_version affected apply
        → apply.errors ≢ []
        → Reports module_id old_version affected back
        → back.errors ≡ []
        → Holds module_id (rolled_back apply.errors back.acknowledgements) ops after
        → is_reload_in_progress operations module_id after ≡ false
        → Outcome module_id old_version new_version affected ops
            (some (not_committed module_id apply.errors), after)
    doubts :
        {apply back : AcknowledgementCollection} {after : O}
        → is_reload_in_progress operations module_id ops ≡ false
        → Reports module_id new_version affected apply
        → apply.errors ≢ []
        → Reports module_id old_version affected back
        → back.errors ≢ []
        → Holds module_id (in_doubt apply.errors back.errors back.acknowledgements) ops after
        → is_reload_in_progress operations module_id after ≡ true
        → Outcome module_id old_version new_version affected ops
            (some (still_in_doubt module_id apply.errors back.errors), after)

  -- Whichever way a phase ends, by its errors.
  errors-cases :
      (es : List ProcessReloadError)
      → (es ≡ []) ⊎ ((x : ProcessReloadError) × (xs : List ProcessReloadError) × (es ≡ x ∷ xs))
  errors-cases [] = inl refl
  errors-cases (x ∷ xs) = inr (x, xs, refl)

  nonempty :
      (es : List ProcessReloadError) (x : ProcessReloadError) (xs : List ProcessReloadError)
      → es ≡ x ∷ xs
      → es ≢ []
  nonempty es x xs e = λ no. absurd (ground (arith, e, no))

  module _ (deliver : ℕ → Request → Bool) (apply_replies rollback_replies : List Reply)
      (module_id old_version new_version : ℕ) (affected : List ℕ) (ops : O)
      (idle : is_reload_in_progress operations module_id ops ≡ false) where
    Ends : Option Error × O → Type 0
    Ends = Outcome module_id old_version new_version affected ops

    -- `finish` ends the reload where its error and its status are those of an outcome.
    finish-Ends :
        (s t : ReloadStatus) (result : Option Error) (now : O)
        → Holds module_id s ops now
        → ((after : O) → Holds module_id t ops after → Ends (result, after))
        → Ends (finish operations module_id t result now)
    finish-Ends s t result now h ends =
        let (e, held) = finish-Holds module_id s t result ops now h in
        subst (λ r. Ends (r, (finish operations module_id t result now).1)) (sym e) (ends _ held)

    roll_back_phase-Outcome :
        (apply : AcknowledgementCollection) (s : ReloadStatus) (now : O)
        → Holds module_id s ops now
        → Reports module_id new_version affected apply
        → apply.errors ≢ []
        → Ends (
            roll_back_phase operations deliver apply_replies rollback_replies module_id old_version
              new_version
              (sort_dedup affected)
              apply.errors
              now)
    unfolding Ends roll_back_phase blocks_new_operation
    roll_back_phase-Outcome apply s now h reported failing =
        let replies =
          dispatch deliver (roll_back module_id new_version old_version) (sort_dedup affected)
          ++ rollback_replies in
        let back = collect_acknowledgements (sort_dedup affected) replies module_id old_version in
        let reported_back = collected-Reports module_id old_version affected replies in
        let (e, held) = set_status-Holds module_id s (rolling_back apply.errors) ops now h in
        elim (errors-cases back.errors) [
          | inl clean ↦
              rw (e, clean, roll_back_phase)
                (finish-Ends _ _ _ _ held (λ after done.
                  restores idle reported failing reported_back clean done
                    (Holds-blocks module_id _ ops after done)))
          | inr (x, xs, some_failed) ↦
              rw (e, some_failed, roll_back_phase)
                (finish-Ends _ _ _ _ held (λ after done.
                  doubts idle reported failing reported_back (nonempty back.errors x xs some_failed)
                    done (Holds-blocks module_id _ ops after done)))
        ]

    apply_phase-Outcome :
        (s : ReloadStatus) (now : O)
        → Holds module_id s ops now
        → Ends (
            apply_phase operations deliver apply_replies rollback_replies module_id old_version
              new_version
              (sort_dedup affected)
              now)
    unfolding Ends apply_phase blocks_new_operation
    apply_phase-Outcome s now h =
        let replies =
          dispatch deliver (hot_reload module_id old_version new_version) (sort_dedup affected)
          ++ apply_replies in
        let apply = collect_acknowledgements (sort_dedup affected) replies module_id new_version in
        let reported = collected-Reports module_id new_version affected replies in
        elim (errors-cases apply.errors) [
          | inl clean ↦
              rw (clean, apply_phase)
                (finish-Ends _ _ _ _ h (λ after done.
                  commits idle reported clean done (Holds-blocks module_id _ ops after done)))
          | inr (x, xs, some_failed) ↦
              rw (some_failed, apply_phase)
                (roll_back_phase-Outcome apply s now h reported
                  (nonempty apply.errors x xs some_failed))
        ]

  -- One of four ends. Where an earlier reload of the module still runs or is in doubt, the call
  -- fails and changes nothing. Otherwise every affected process is reported exactly once in each
  -- phase, with an acknowledgement of this module at the version asked for or with an error: the
  -- call succeeds and the module is committed exactly when the first phase has no error; else it
  -- fails, and the module is rolled back when the second phase has none, in doubt when it has. A
  -- later reload of the module is blocked exactly in the last case. The operations of the other
  -- modules stay.
  pub atomic-Outcome :
      (deliver : ℕ → Request → Bool) (apply_replies rollback_replies : List Reply)
      (module_id old_version new_version : ℕ) (affected : List ℕ) (ops : O)
      → Outcome module_id old_version new_version affected ops (
          perform_atomic_reload operations deliver apply_replies rollback_replies module_id
            old_version new_version affected ops)
  unfolding perform_atomic_reload Ends
  atomic-Outcome deliver apply_replies rollback_replies module_id old_version new_version affected
        ops =
      elim (Bool-cases (is_reload_in_progress operations module_id ops)) [
        | inl busy ↦
            let (s, held, e) = start_reload-blocked module_id affected ops busy in
            rw (ap (λ r. r.0) e, ap (λ r. r.1) e, perform_atomic_reload) (refused busy held)
        | inr idle ↦
            let (e, held, targets) = start_reload-begins module_id affected ops idle in
            rw (e, targets, perform_atomic_reload)
              (apply_phase-Outcome deliver apply_replies rollback_replies module_id old_version
                new_version affected ops idle applying _ held)
      ]
