-- ===== src/Reload/Coordinated/Steps.antt =====
-- The reload of the modules of an order, one by one.
use lunatic.Prelude.{
  ℕ, ◌<◌, ◌≡◌, ◌≢◌, ◌↔◌, ◌⊎◌, inl, inr, refl, ◌∙◌, List, [], ◌∷◌, Option, none, some, Bool, true,
  false, arith, contains, length, if◌then◌else◌, ◌==◌, Option-cases,
}
use lunatic.External.ConcurrentMap.{ConcurrentMap}
use lunatic.ModuleRegistry as Registry
use lunatic.ModuleRegistry.{
  ModuleHistory, ModuleRegistry, Result, ok, err, get_committed_version_number, mark_committed,
  processes_for_module, get_dependents, new,
}
use lunatic.ModuleRegistry.ReloadOrder.{get_reload_order}
use lunatic.ModuleRegistry.ReloadOrder.Reached.{Distinct}
use lunatic.ModuleRegistry.ReloadOrder.Links.{Reach, add_all, in_links, get_reload_order-Reach}
use lunatic.Reload.{ReloadOperation, Request, Reply, Error, perform_atomic_reload}
use lunatic.Reload.Outcomes.{Outcome, atomic-Outcome}
use lunatic.Reload.Coordinated.{
  CoordinatedError, failed_at, not_marked, unwrap_or_zero, reload_modules,
  perform_coordinated_reload,
}
use lunatic.Reload.Coordinated.Progress.{
  Same, Committed, Committed-Same, Outcome-others, Outcome-Committed, Progress, finished, skipped,
  reloaded, failed_here, unmarked_here, Progress-Same, apart,
}

module _ {O : Type 0} (operations : ConcurrentMap ReloadOperation O) where
  module _ {M D : Type 0} (histories : ConcurrentMap ModuleHistory M)
      (lists : ConcurrentMap (List ℕ) D) (deliver : ℕ → Request → Bool)
      (apply_replies rollback_replies : ℕ → List Reply)
      (meanwhile : ℕ → ModuleRegistry M D → ModuleRegistry M D) (module_id new_version : ℕ)
      (affected : ℕ → List ℕ) where
    abbrev reloads :
        List ℕ → ModuleRegistry M D → O → Option CoordinatedError × ModuleRegistry M D × O
    reloads =
        reload_modules operations histories lists deliver apply_replies rollback_replies meanwhile
          module_id new_version affected

    abbrev version_of : ℕ → ModuleRegistry M D → ℕ
    version_of mid r =
        if mid == module_id
        then new_version
        else unwrap_or_zero (get_committed_version_number histories lists mid r)

    abbrev one : ℕ → ModuleRegistry M D → O → Option Error × O
    one mid r ops =
        perform_atomic_reload operations deliver (apply_replies mid) (rollback_replies mid) mid
          (unwrap_or_zero (get_committed_version_number histories lists mid r)) (version_of mid r)
          (affected mid) ops

    -- What the reload of the first module leads to.
    data Step (mid : ℕ) (mids : List ℕ) (r : ModuleRegistry M D) (ops : O)
        : Option CoordinatedError × ModuleRegistry M D × O → Type 0 where
      no_process : affected mid ≡ [] → Step mid mids r ops (reloads mids r ops)
      failure :
          {e : Error}
          → (one mid r ops).0 ≡ some e
          → Step mid mids r ops (some (failed_at mid e), meanwhile mid r, (one mid r ops).1)
      unmarked :
          {e : Registry.Error}
          → (one mid r ops).0 ≡ none
          → Step mid mids r ops (some (not_marked mid e), meanwhile mid r, (one mid r ops).1)
      success :
          (r' : ModuleRegistry M D)
          → (one mid r ops).0 ≡ none
          → Step mid mids r ops (reloads mids r' (one mid r ops).1)

    Result-cases :
        (x : Result (ModuleRegistry M D))
        → ((e : Registry.Error) × (x ≡ err e)) ⊎ ((r : ModuleRegistry M D) × (x ≡ ok r))
    Result-cases (err e) = inl (e, refl)
    Result-cases (ok r) = inr (r, refl)

    List-cases : (xs : List ℕ) → (xs ≡ []) ⊎ ((y : ℕ) × (ys : List ℕ) × (xs ≡ y ∷ ys))
    List-cases [] = inl refl
    List-cases (y ∷ ys) = inr (y, ys, refl)

    reload_modules-Step :
        (mid : ℕ) (mids : List ℕ) (r : ModuleRegistry M D) (ops : O)
        → Step mid mids r ops (reloads (mid ∷ mids) r ops)
    unfolding reload_modules
    reload_modules-Step mid mids r ops = elim (List-cases (affected mid)) [
      | inl idle ↦ rw (idle, reload_modules) (no_process idle)
      | inr (p, ps, e) ↦ elim (Option-cases (one mid r ops).0) [
        | inr (bad, failed) ↦ rw (e, failed, reload_modules) (failure failed)
        | inl fine ↦
            elim (Result-cases
              (mark_committed histories lists mid (version_of mid r) (meanwhile mid r))) [
                | inl (bad, refusal) ↦ rw (e, fine, refusal, reload_modules) (unmarked fine)
                | inr (r', marked) ↦ rw (e, fine, marked, reload_modules) (success r' fine)
              ]
      ]
    ]

    one-Outcome :
        (mid : ℕ) (r : ModuleRegistry M D) (ops : O)
        → Outcome operations mid
            (unwrap_or_zero (get_committed_version_number histories lists mid r))
            (version_of mid r)
            (affected mid)
            ops
            (one mid r ops)
    one-Outcome mid r ops =
        atomic-Outcome operations deliver (apply_replies mid) (rollback_replies mid) mid _
          (version_of mid r) (affected mid) ops

    one-others :
        (mid : ℕ) (r : ModuleRegistry M D) (ops : O) (j : ℕ)
        → mid ≢ j
        → Same operations ops (one mid r ops).1 j
    one-others mid r ops =
        Outcome-others operations mid _ _ (affected mid) ops _ (one-Outcome mid r ops)

    Step-others :
        (j mid : ℕ) (mids : List ℕ) (r : ModuleRegistry M D) (ops : O)
        (result : Option CoordinatedError × ModuleRegistry M D × O)
        → Step mid mids r ops result
        → ((r' : ModuleRegistry M D) (ops' : O) → Same operations ops' (reloads mids r' ops').2 j)
        → mid ≢ j
        → Same operations ops result.2 j
    Step-others j mid mids r ops _ (no_process idle) rest other = rest r ops
    Step-others j mid mids r ops _ (failure e) rest other = one-others mid r ops j other
    Step-others j mid mids r ops _ (unmarked e) rest other = one-others mid r ops j other
    Step-others j mid mids r ops _ (success r' e) rest other =
        rest r' (one mid r ops).1 ∙ one-others mid r ops j other

    -- A list without a module leaves its operation.
    reload_modules-others :
        (j : ℕ) (mids : List ℕ) (r : ModuleRegistry M D) (ops : O)
        → contains j mids ≡ false
        → Same operations ops (reloads mids r ops).2 j
    unfolding reload_modules contains
    reload_modules-others j [] r ops absent = refl
    reload_modules-others j (mid ∷ mids) r ops absent =
        Step-others j mid mids r ops _ (reload_modules-Step mid mids r ops)
          (λ r' ops'. reload_modules-others j mids r' ops' (ground (arith, absent)))
          (λ same. ground (arith, same, absent))

    one-Committed :
        (mid : ℕ) (r : ModuleRegistry M D) (ops : O)
        → (one mid r ops).0 ≡ none
        → Committed operations (one mid r ops).1 mid (version_of mid r) (affected mid)
    one-Committed mid r ops =
        Outcome-Committed operations mid _ _ (affected mid) ops _ (one-Outcome mid r ops)

    asked_version :
        (mid : ℕ) (r : ModuleRegistry M D) → mid ≡ module_id → version_of mid r ≡ new_version
    asked_version mid r same = ground (arith, same)

    Step-Progress :
        (mid : ℕ) (mids : List ℕ) (r : ModuleRegistry M D) (ops : O)
        (result : Option CoordinatedError × ModuleRegistry M D × O)
        → Step mid mids r ops result
        → contains mid mids ≡ false
        → ((r' : ModuleRegistry M D) (ops' : O)
            → Progress operations module_id new_version affected ops'
                (reloads mids r' ops').2
                (reloads mids r' ops').0
                mids)
        → Progress operations module_id new_version affected ops result.2 result.0 (mid ∷ mids)
    Step-Progress mid mids r ops _ (no_process idle) apart_from rest =
        skipped idle (reload_modules-others mid mids r ops apart_from) (rest r ops)
    Step-Progress mid mids r ops _ (failure e) apart_from rest =
        failed_here (apart operations ops _ mid mids (one-others mid r ops) apart_from)
    Step-Progress mid mids r ops _ (unmarked e) apart_from rest =
        unmarked_here (one-Committed mid r ops e)
          (apart operations ops _ mid mids (one-others mid r ops) apart_from)
    Step-Progress mid mids r ops _ (success r' e) apart_from rest =
        reloaded (asked_version mid r)
          (Committed-Same operations (one mid r ops).1 _ mid _ (affected mid)
            (reload_modules-others mid mids r' (one mid r ops).1 apart_from)
            (one-Committed mid r ops e))
          (Progress-Same operations module_id new_version affected ops (one mid r ops).1 _ _ mids
            (rest r' (one mid r ops).1)
            (apart operations ops _ mid mids (one-others mid r ops) apart_from))

    pub reload_modules-Progress :
        (mids : List ℕ) (r : ModuleRegistry M D) (ops : O)
        → Distinct mids
        → Progress operations module_id new_version affected ops
            (reloads mids r ops).2
            (reloads mids r ops).0
            mids
    unfolding reload_modules
    reload_modules-Progress [] r ops d = finished
    reload_modules-Progress (mid ∷ mids) r ops (own, d) =
        Step-Progress mid mids r ops _ (reload_modules-Step mid mids r ops) own
          (λ r' ops'. reload_modules-Progress mids r' ops' d)

  module _ {M D : Type 0} (histories : ConcurrentMap ModuleHistory M)
      (lists : ConcurrentMap (List ℕ) D) (deliver : ℕ → Request → Bool)
      (apply_replies rollback_replies : ℕ → List Reply)
      (meanwhile : ℕ → ModuleRegistry M D → ModuleRegistry M D) where
    same_order :
        (fuel m : ℕ) (r s : ModuleRegistry M D)
        → r.dependencies ≡ s.dependencies
        → get_reload_order histories lists fuel m r ≡ get_reload_order histories lists fuel m s
    unfolding get_reload_order get_dependents
    same_order fuel m r s e = rw e refl

    -- Given enough fuel for the dependencies of the registry, the call ends. It goes through the
    -- module asked for and all that depend on it, each once, up to the first that fails: before that
    -- one, every module with processes is committed at the end, each of its processes having
    -- confirmed its version, the new version for the module asked for; behind it no module's
    -- operation is changed. It succeeds exactly when it comes through all.
    pub coordinated-Progress :
        (links : List (ℕ × ℕ)) (fuel env_id module_id new_version : ℕ) (r : ModuleRegistry M D)
        (ops : O)
        → length links < fuel
        → r.dependencies ≡ (add_all histories lists links (new histories lists)).dependencies
        → (order : List ℕ) × ((x : ℕ)
            → (contains x order ≡ true) ↔ Reach (in_links histories lists links) module_id x)
          × Distinct order
          × (result : Option CoordinatedError × ModuleRegistry M D × O)
          × (perform_coordinated_reload operations histories lists deliver apply_replies
                rollback_replies meanwhile fuel env_id module_id new_version r ops
              ≡ some result)
          × Progress operations module_id new_version
              (λ mid. processes_for_module histories lists mid env_id r)
              ops
              result.2
              result.0
              order
    unfolding perform_coordinated_reload
    coordinated-Progress links fuel env_id module_id new_version r ops enough known =
        let (order, found, distinct, members) =
          get_reload_order-Reach histories lists links fuel module_id enough in
        let e = same_order fuel module_id r _ known ∙ found in
        let affected : ℕ → List ℕ = λ mid. processes_for_module histories lists mid env_id r in
        (
          order,
          members,
          distinct,
          reload_modules operations histories lists deliver apply_replies rollback_replies meanwhile
              module_id new_version affected order r ops,
          rw (e, perform_coordinated_reload) refl,
          reload_modules-Progress histories lists deliver apply_replies rollback_replies meanwhile
              module_id new_version affected order r ops distinct,
        )
