-- ===== src/Supervisor/Tracker.antt =====
-- crates/lunatic-otp-patterns/src/supervisor.rs: the changes of a supervisor's children, and what
-- `refresh_cleanup_tracker` keeps true of them.
use lunatic.Prelude.{
  ℕ, ◌≡◌, inl, inr, subst, List, none, some, Bool, true, ◌==◌, ==→eq, arith, is_some, Bool-cases,
  Option-cases,
}
use lunatic.Prelude.Maps
use lunatic.Prelude.Maps.{get-put}
use lunatic.Supervisor.{
  ChildSpec, ChildState, RestartEvent, Supervisor, find_spec, held, refresh_cleanup_tracker,
  clear_process, install,
}

-- What changes a supervisor: a child loses its process, a child of the specification gets one, and
-- restarts are counted.
pub data Moves (s : Supervisor) : Supervisor → Type 0 where
  stay : Moves s s
  cleared :
      {t : Supervisor} (id : ℕ) → Moves s t → Moves s (refresh_cleanup_tracker (clear_process id t))
  installed :
      {t : Supervisor} (id process : ℕ) (spec : ChildSpec) (is_restart : Bool)
      → find_spec id t.spec.children ≡ some spec
      → Moves s t
      → Moves s (refresh_cleanup_tracker (install id spec process is_restart t))
  counted :
      {t : Supervisor} (events : List RestartEvent)
      → Moves s t
      → Moves s (record t { restart_history = events })

-- The tracker lists the processes of the children, and every child is of the specification.
pub record IsSound (s : Supervisor) : Type 0 where
  pub tracked : (ps : List ℕ) → s.cleanup_tracker ≡ some ps → ps ≡ held s.spec.children s.children
  pub known :
      (id : ℕ)
      → is_some (Maps.get s.children id) ≡ true
      → is_some (find_spec id s.spec.children) ≡ true

Known : Supervisor → Type 0
Known s =
    (id : ℕ)
    → is_some (Maps.get s.children id) ≡ true
    → is_some (find_spec id s.spec.children) ≡ true

refreshed : (s : Supervisor) → Known s → IsSound (refresh_cleanup_tracker s)
unfolding refresh_cleanup_tracker Known
refreshed s known = elim (Option-cases s.cleanup_tracker) [
  | inl untracked ↦
      rw (untracked, refresh_cleanup_tracker)
        (record { tracked = λ ps e. absurd (ground (arith, e, untracked)); known = known })
  | inr (ps, tracking) ↦
      rw (tracking, refresh_cleanup_tracker)
        (record { tracked = λ qs e. ground (arith, e); known = known })
]

put-Known :
    (id : ℕ) (state : ChildState) (s : Supervisor)
    → is_some (find_spec id s.spec.children) ≡ true
    → Known s
    → Known (record s { children = Maps.put id state s.children })
unfolding Known
put-Known id state s its known = λ j h. elim (Bool-cases (id == j)) [
  | inl same ↦ subst (λ i. is_some (find_spec i s.spec.children) ≡ true) (==→eq id j same) its
  | inr other ↦ known j (ground (arith, h, get-put id state s.children j))
]

clear-Known : (id : ℕ) (s : Supervisor) → Known s → Known (clear_process id s)
unfolding clear_process Known
clear-Known id s known = elim (Option-cases (Maps.get s.children id)) [
  | inl absent ↦ rw (absent, clear_process) known
  | inr (state, e) ↦
      rw (e, clear_process)
        (put-Known id (record state { process = none }) s (known id (ground arith)) known)
]

install-Known :
    (id process : ℕ) (spec : ChildSpec) (is_restart : Bool) (s : Supervisor)
    → find_spec id s.spec.children ≡ some spec
    → Known s
    → Known (install id spec process is_restart s)
unfolding install Known
install-Known id process spec is_restart s its known =
    elim (Option-cases (Maps.get s.children id)) [
      | inl absent ↦ rw (absent, install) (put-Known id _ s (ground (arith, its)) known)
      | inr (state, e) ↦ rw (e, install) (put-Known id _ s (ground (arith, its)) known)
    ]

pub Moves-IsSound : (s t : Supervisor) → IsSound s → Moves s t → IsSound t
unfolding Known
Moves-IsSound s _ sound stay = sound
Moves-IsSound s _ sound (cleared {t = t} id m) =
    let before = Moves-IsSound s t sound m in refreshed _ (clear-Known id t before.known)
Moves-IsSound s _ sound (installed {t = t} id process spec is_restart its m) =
    let before = Moves-IsSound s t sound m in
    refreshed _ (install-Known id process spec is_restart t its before.known)
Moves-IsSound s _ sound (counted {t = t} events m) =
    let before = Moves-IsSound s t sound m in
    record { tracked = before.tracked; known = before.known }
