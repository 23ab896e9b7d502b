-- ===== src/Supervisor/Starting.antt =====
-- crates/lunatic-otp-patterns/src/supervisor.rs, `start_child_internal` as a restart calls it: the
-- states of the children after it.
use lunatic.Prelude.{
  ℕ, ◌≡◌, inl, inr, ap, ◌∙◌, subst, some, true, if◌then◌else◌, ◌==◌, arith, Bool-cases,
  Option-cases,
}
use lunatic.Prelude.Maps
use lunatic.Prelude.Maps.{get-put}
use lunatic.Supervisor.{
  ChildSpec, ChildState, Supervisor, Error, Result, ok, err, Runtime, find_spec,
  refresh_cleanup_tracker, saturating_suc, install, attach, launch, running, start_child_internal,
}
use lunatic.Supervisor.Stopping.{count_of, refreshed_children, refreshed_spec, Keeps, cleared-Keeps}

-- The state that a restart gives a child.
abbrev pub renewed_state : ChildSpec → ℕ → ℕ → ChildState
renewed_state spec process count = record {
  spec = spec;
  process = some process;
  restart_count = saturating_suc count;
}

installed_state :
    (id process : ℕ) (spec : ChildSpec) (s : Supervisor) (j : ℕ)
    → Maps.get (refresh_cleanup_tracker (install id spec process true s)).children j ≡ (
        if id == j
        then some (renewed_state spec process (count_of id s.children))
        else Maps.get s.children j)
unfolding install count_of saturating_suc
installed_state id process spec s j = elim (Option-cases (Maps.get s.children id)) [
  | inl absent ↦
      ap (λ cs. Maps.get cs j) (refreshed_children (install id spec process true s))
      ∙ rw (absent, install) (rw (absent, count_of) (get-put id _ s.children j))
  | inr (state, e) ↦
      ap (λ cs. Maps.get cs j) (refreshed_children (install id spec process true s))
      ∙ rw (e, install) (rw (e, count_of) (get-put id _ s.children j))
]

installed_spec :
    (id process : ℕ) (spec : ChildSpec) (s : Supervisor)
    → (refresh_cleanup_tracker (install id spec process true s)).spec ≡ s.spec
unfolding install
installed_spec id process spec s = refreshed_spec (install id spec process true s) ∙ ground arith

module _ {W : Type 0} (runtime : Runtime W) where
  -- After a start that succeeds, the child has the process that its own start function gave and one
  -- restart more, and every other child has its state.
  pub record Launched (id process : ℕ) (s t : Supervisor) : Type 0 where
    pub spec : ChildSpec
    pub world : W
    pub own : find_spec id s.spec.children ≡ some spec
    pub begun : (runtime.start spec.start world).0 ≡ some process
    pub states :
        (j : ℕ)
        → Maps.get t.children j ≡ (
            if id == j
            then some (renewed_state spec process (count_of id s.children))
            else Maps.get s.children j)
    pub same_spec : t.spec ≡ s.spec

  -- Of a start's result.
  abbrev Launches : ℕ → Supervisor → Result ℕ × Supervisor × W → Type 0
  Launches id s r = (process : ℕ) → r.0 ≡ ok process → Launched id process s r.1

  failed-Launches : (id : ℕ) (s t : Supervisor) (e : Error) (w : W) → Launches id s (err e, t, w)
  failed-Launches id s t e w process h = absurd (ground (arith, h))

  installed-Launched :
      (id process : ℕ) (spec : ChildSpec) (s t : Supervisor) (w : W)
      → Keeps id s t
      → find_spec id s.spec.children ≡ some spec
      → (runtime.start spec.start w).0 ≡ some process
      → Launched id process s (refresh_cleanup_tracker (install id spec process true t))
  installed-Launched id process spec s t w k its began = record {
    spec = spec;
    world = w;
    own = its;
    begun = began;
    states = λ j. elim (Bool-cases (id == j)) [
      | inl same ↦ rw same (
          installed_state id process spec t j
          ∙ rw same (ap (λ c. some (renewed_state spec process c)) (k.counts id)))
      | inr other ↦ rw other (installed_state id process spec t j ∙ rw other (k.others j other))
    ];
    same_spec = installed_spec id process spec t ∙ k.same_spec;
  }

  launch-Launches :
      (id : ℕ) (spec : ChildSpec) (s t : Supervisor) (w : W)
      → Keeps id s t
      → find_spec id s.spec.children ≡ some spec
      → Launches id s (launch runtime id spec true t w)
  unfolding launch
  launch-Launches id spec s t w k its = elim (Option-cases (runtime.start spec.start w).0) [
    | inl refused ↦ rw (refused, launch) (failed-Launches id s t _ (runtime.start spec.start w).1)
    | inr (process, e) ↦
        elim (Option-cases (attach runtime id process t.monitor (runtime.start spec.start w).1).0) [
          | inr (failure, unwatched) ↦
              rw (e, unwatched, launch)
                (failed-Launches id s t _
                  (attach runtime id process t.monitor (runtime.start spec.start w).1).1)
          | inl fine ↦
              rw (e, fine, launch)
                (λ p h.
                  subst
                    (λ p.
                      Launched id p s (refresh_cleanup_tracker (install id spec process true t)))
                    (ground (arith, h)) (installed-Launched id process spec s t w k its e))
        ]
  ]

  pub start_child_internal-Launches :
      (id : ℕ) (s : Supervisor) (w : W) → Launches id s (start_child_internal runtime id true s w)
  unfolding start_child_internal
  start_child_internal-Launches id s w = elim (Bool-cases (runtime.multi_thread w)) [
    | inr single ↦ rw (single, start_child_internal) (failed-Launches id s s _ w)
    | inl many ↦ elim (Option-cases (find_spec id s.spec.children)) [
      | inl unknown ↦ rw (many, unknown, start_child_internal) (failed-Launches id s s _ w)
      | inr (spec, its) ↦ elim (Option-cases (running runtime id s w)) [
        | inr (process, alive) ↦
            rw (many, its, alive, start_child_internal) (failed-Launches id s s _ w)
        | inl idle ↦
            rw (many, its, idle, start_child_internal)
              (launch-Launches id spec s _ w (cleared-Keeps id s) its)
      ]
    ]
  ]
