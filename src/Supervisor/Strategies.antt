-- ===== src/Supervisor/Strategies.antt =====
-- crates/lunatic-otp-patterns/src/supervisor.rs, `handle_process_exit`: what the exit of a process
-- does to the children, by restart policy and strategy.
use lunatic.Prelude.{
  ℕ, ◌≡◌, List, [], ◌∷◌, none, some, Bool, true, false, ◌&&◌, ◌||◌, if◌then◌else◌, ◌==◌, is_some,
  contains,
}
use lunatic.Prelude.Maps
use lunatic.Message.{DeathReason}
use lunatic.Supervisor.{
  RestartStrategy, one_for_one, one_for_all, rest_for_one, simple_one_for_one, ChildState,
  Supervisor, Runtime, child_process,
}
use lunatic.Supervisor.Restarts.{child_ids, should_restart, child_of, exit_reason}
use lunatic.Supervisor.Renewals.{Restarted}

-- The names from the failed child on.
unfoldable pub starting_at : ℕ → List ℕ → List ℕ
starting_at id [] = []
starting_at id (x ∷ xs) = if x == id then x ∷ xs else starting_at id xs

-- The children that a strategy restarts, given the names in their order and who has a process.
unfoldable pub is_chosen : RestartStrategy → ℕ → List ℕ → (ℕ → Bool) → ℕ → Bool
is_chosen one_for_one id names active j = id == j
is_chosen simple_one_for_one id names active j = id == j
is_chosen one_for_all id names active j = contains j names && (id == j || active j)
is_chosen rest_for_one id names active j =
    contains j (starting_at id names) && (id == j || active j)

module _ {W : Type 0} (runtime : Runtime W) where
  -- What a handled exit comes to.
  pub data Handled (process : ℕ) (reason : DeathReason) (s : Supervisor) (w : W)
      : Supervisor × W → Type 0 where
    stale : child_of process s.children ≡ none → Handled process reason s w (s, w)
    let_go :
        {id : ℕ} {state : ChildState} {after : Supervisor × W}
        → child_of process s.children ≡ some id
        → Maps.get s.children id ≡ some state
        → should_restart state.spec.restart (exit_reason reason) ≡ false
        → child_process id after.0.children ≡ none
        → ((j : ℕ) → (id == j) ≡ false → Maps.get after.0.children j ≡ Maps.get s.children j)
        → Handled process reason s w after
    replaced :
        {id : ℕ} {state : ChildState} {after : Supervisor × W}
        → child_of process s.children ≡ some id
        → Maps.get s.children id ≡ some state
        → should_restart state.spec.restart (exit_reason reason) ≡ true
        → Restarted runtime
            (is_chosen s.spec.strategy id
              (child_ids s.spec.children)
              (λ i. is_some (child_process i s.children)))
            s
            after.0
        → Handled process reason s w after
