-- ===== src/External/Semaphore.antt =====
-- `tokio::sync::Semaphore`, as crates/lunatic-process/src/mailbox.rs and state.rs use it: a count of
-- permits that is taken from without waiting and that a dropped permit gives back to.
-- The code never closes a semaphore that it acquires from.
use lunatic.Prelude.{ℕ, zero, suc, ◌≡◌, refl, ◌⊎◌, inl, inr, Option, none, some}

-- What `try_acquire_owned` may do to a semaphore with `n` permits.
abbrev pub Acquires : {State : Type 0} → (State → ℕ) → ℕ → Option State → Type 0
Acquires {State} available n r =
    ((n ≡ 0) × (r ≡ none)) ⊎ ((s' : State) × (r ≡ some s') × (suc (available s') ≡ n))

pub record Semaphore (State : Type 0) : Type 0 where
  pub new : ℕ → State
  pub available_permits : State → ℕ
  pub try_acquire_owned : State → Option State
  pub release : State → State
  pub available-new : (n : ℕ) → available_permits (new n) ≡ n
  pub try_acquire-Acquires :
      (s : State) → Acquires available_permits (available_permits s) (try_acquire_owned s)
  pub available-release : (s : State) → available_permits (release s) ≡ suc (available_permits s)

abbrev pub take_one : ℕ → Option ℕ
take_one zero = none
take_one (suc n) = some n

pub take_one-Acquires : (n : ℕ) → Acquires {State = ℕ} (λ k. k) n (take_one n)
take_one-Acquires zero = inl (refl, refl)
take_one-Acquires (suc n) = inr (n, refl, refl)

-- A counter is such a semaphore.
abbrev pub counting : Semaphore ℕ
counting = record {
  new = λ n. n;
  available_permits = λ n. n;
  try_acquire_owned = take_one;
  release = suc;
  available-new = λ n. refl;
  try_acquire-Acquires = take_one-Acquires;
  available-release = λ n. refl;
}
