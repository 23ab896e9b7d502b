-- ===== src/Reload/Coordinated/Progress.antt =====
-- How far a coordinated reload comes, and what it leaves of each module.
use lunatic.Prelude.{
  ℕ, ◌≡◌, ◌≢◌, refl, ◌∙◌, List, [], ◌∷◌, Option, none, some, false, arith, contains, All,
}
use lunatic.External.ConcurrentMap.{ConcurrentMap}
use lunatic.ModuleRegistry as Registry
use lunatic.ModuleRegistry.{
  ModuleHistory, ModuleRegistry, Result, ok, err, get_committed_version_number, mark_committed,
  processes_for_module, get_dependents, new,
}
use lunatic.Reload.{ReloadOperation, Error, AcknowledgementCollection, committed, status}
use lunatic.Reload.Outcomes.{Reports, Outcome, refused, commits, restores, doubts}
use lunatic.Reload.Coordinated.{CoordinatedError, failed_at, not_marked}

module _ {O : Type 0} (operations : ConcurrentMap ReloadOperation O) where
  abbrev pub Same : O → O → ℕ → Type 0
  Same before after j = operations.get after j ≡ operations.get before j

  -- Each process of the module confirmed its version, and the module is committed.
  pub record Committed (final : O) (module_id version : ℕ) (affected : List ℕ) : Type 0 where
    pub collection : AcknowledgementCollection
    pub reported : Reports module_id version affected collection
    pub clean : collection.errors ≡ []
    pub held : status operations module_id final ≡ some (committed collection.acknowledgements)

  pub Committed-Same :
      (now final : O) (mid version : ℕ) (affected : List ℕ)
      → Same now final mid
      → Committed now mid version affected
      → Committed final mid version affected
  unfolding status
  Committed-Same now final mid version affected same c = record {
    collection = c.collection;
    reported = c.reported;
    clean = c.clean;
    held = ground (arith, same, c.held);
  }

  -- An atomic reload leaves the operations of the other modules.
  pub Outcome-others :
      (mid old version : ℕ) (affected : List ℕ) (ops : O) (r : Option Error × O)
      → Outcome operations mid old version affected ops r
      → (j : ℕ) → mid ≢ j
      → Same ops r.1 j
  Outcome-others mid old version affected ops _ (refused busy held) j other = refl
  Outcome-others mid old version affected ops _ (commits idle reported clean h free) j other =
      h.others j other
  Outcome-others mid old version affected ops _ (restores idle a b c d h free) j other =
      h.others j other
  Outcome-others mid old version affected ops _ (doubts idle a b c d h busy) j other =
      h.others j other

  pub Outcome-Committed :
      (mid old version : ℕ) (affected : List ℕ) (ops : O) (r : Option Error × O)
      → Outcome operations mid old version affected ops r
      → r.0 ≡ none
      → Committed r.1 mid version affected
  Outcome-Committed mid old version affected ops _ (refused busy held) e =
      absurd (ground (arith, e))
  Outcome-Committed mid old version affected ops _ (commits idle reported clean h free) e = record {
    collection = _;
    reported = reported;
    clean = clean;
    held = h.held;
  }
  Outcome-Committed mid old version affected ops _ (restores idle a b c d h free) e =
      absurd (ground (arith, e))
  Outcome-Committed mid old version affected ops _ (doubts idle a b c d h busy) e =
      absurd (ground (arith, e))

  -- How far the reload of some modules comes, and what it leaves of each: a module without processes
  -- is skipped, a reloaded one is committed, and behind the first that fails nothing is changed.
  pub data Progress (module_id new_version : ℕ) (affected : ℕ → List ℕ) (before final : O)
      : Option CoordinatedError → List ℕ → Type 0 where
    finished : Progress module_id new_version affected before final none []
    skipped :
        {result : Option CoordinatedError} {mid : ℕ} {mids : List ℕ}
        → affected mid ≡ []
        → Same before final mid
        → Progress module_id new_version affected before final result mids
        → Progress module_id new_version affected before final result (mid ∷ mids)
    reloaded :
        {result : Option CoordinatedError} {mid version : ℕ} {mids : List ℕ}
        → (mid ≡ module_id → version ≡ new_version)
        → Committed final mid version (affected mid)
        → Progress module_id new_version affected before final result mids
        → Progress module_id new_version affected before final result (mid ∷ mids)
    failed_here :
        {mid : ℕ} {e : Error} {mids : List ℕ}
        → All (Same before final) mids
        → Progress module_id new_version affected before final (some (failed_at mid e)) (mid ∷ mids)
    unmarked_here :
        {mid version : ℕ} {e : Registry.Error} {mids : List ℕ}
        → Committed final mid version (affected mid)
        → All (Same before final) mids
        → Progress module_id new_version affected before final
            (some (not_marked mid e))
            (mid ∷ mids)

  All-Same :
      (before now final : O) (mids : List ℕ)
      → All (Same before now) mids
      → All (Same now final) mids
      → All (Same before final) mids
  All-Same before now final [] h k = tt
  All-Same before now final (m ∷ ms) (h, hs) (k, ks) = (k ∙ h, All-Same before now final ms hs ks)

  pub Progress-Same :
      (module_id new_version : ℕ) (affected : ℕ → List ℕ) (before now final : O)
      (result : Option CoordinatedError) (mids : List ℕ)
      → Progress module_id new_version affected now final result mids
      → All (Same before now) mids
      → Progress module_id new_version affected before final result mids
  Progress-Same module_id new_version affected before now final _ _ finished same = finished
  Progress-Same module_id new_version affected before now final result _ (skipped none_there h p)
        (s, same) =
      skipped none_there (h ∙ s)
        (Progress-Same module_id new_version affected before now final result _ p same)
  Progress-Same module_id new_version affected before now final result _ (reloaded v c p)
        (s, same) =
      reloaded v c (Progress-Same module_id new_version affected before now final result _ p same)
  Progress-Same module_id new_version affected before now final _ _ (failed_here h) (s, same) =
      failed_here (All-Same before now final _ same h)
  Progress-Same module_id new_version affected before now final _ _ (unmarked_here c h) (s, same) =
      unmarked_here c (All-Same before now final _ same h)

  -- What is left of a module that is not in the list is left of all that are.
  pub apart :
      (before after : O) (mid : ℕ) (mids : List ℕ)
      → ((j : ℕ) → mid ≢ j → Same before after j)
      → contains mid mids ≡ false
      → All (Same before after) mids
  unfolding contains
  apart before after mid [] h absent = tt
  apart before after mid (m ∷ ms) h absent = (
    h m (λ same. ground (arith, same, absent)),
    apart before after mid ms h (ground (arith, absent)),
  )
