-- ===== src/Supervisor/Renewals.antt =====
-- crates/lunatic-otp-patterns/src/supervisor.rs, `start_all` as a restart calls it: which children are
-- restarted.
use lunatic.Prelude.{
  ℕ, suc, ◌+◌, ◌-◌, ◌^◌, min, ◌≡◌, ◌⊎◌, inl, inr, refl, sym, ap, ◌∙◌, subst, List, [], ◌∷◌, none,
  some, Bool, true, false, if◌then◌else◌, ◌==◌, ==_refl, ==→eq, arith, contains, Bool-cases,
}
use lunatic.Prelude.Maps
use lunatic.Prelude.Maps.{get-put}
use lunatic.Supervisor.{
  ChildState, Supervisor, Error, Result, ok, err, Runtime, find_spec, saturating_suc,
  start_child_internal,
}
use lunatic.Supervisor.Restarts.{start_all}
use lunatic.Supervisor.Stopping.{count_of, Stopped}
use lunatic.Supervisor.Starting.{renewed_state, Launched, start_child_internal-Launches}

module _ {W : Type 0} (runtime : Runtime W) where
  -- A child that was restarted: it has the process that its own start function gave, and its count
  -- of restarts has gone up, to the largest 32-bit number at most.
  pub record Renewed (id : ℕ) (s t : Supervisor) : Type 0 where
    pub state : ChildState
    pub process : ℕ
    pub world : W
    pub restarts : ℕ
    pub now_has : Maps.get t.children id ≡ some state
    pub runs : state.process ≡ some process
    pub own : find_spec id s.spec.children ≡ some state.spec
    pub begun : (runtime.start state.spec.start world).0 ≡ some process
    pub counted : state.restart_count ≡ min (count_of id s.children + suc restarts) (2 ^ 32 - 1)

  -- Each child of the list is restarted, and the others are left alone.
  abbrev pub Restarted : (ℕ → Bool) → Supervisor → Supervisor → Type 0
  Restarted in_list s t =
      (j : ℕ)
      → ((in_list j ≡ true) × Renewed j s t)
        ⊎ ((in_list j ≡ false) × (Maps.get t.children j ≡ Maps.get s.children j))

  Launched-Renewed :
      (id process : ℕ) (s t u : Supervisor)
      → Launched runtime id process s t
      → Maps.get u.children id ≡ Maps.get t.children id
      → Renewed id s u
  unfolding saturating_suc
  Launched-Renewed id process s t u l same = record {
    state = renewed_state l.spec process (count_of id s.children);
    process = process;
    world = l.world;
    restarts = 0;
    now_has = same ∙ ground (arith, l.states id, ==_refl id);
    runs = refl;
    own = l.own;
    begun = l.begun;
    counted = refl;
  }

  counted_on :
      (id process j : ℕ) (s t : Supervisor)
      → Launched runtime id process s t
      → count_of j t.children
        ≡ (if id == j then saturating_suc (count_of j s.children) else count_of j s.children)
  unfolding count_of
  counted_on id process j s t l = elim (Bool-cases (id == j)) [
    | inl same ↦
        subst
          (λ j.
            count_of j t.children
            ≡ (if id == j then saturating_suc (count_of j s.children) else count_of j s.children))
          (==→eq id j same) (ground (arith, l.states id, ==_refl id))
    | inr other ↦ ground (arith, other, l.states j)
  ]

  -- The start of another child, or of the same one before, adds at most to the count.
  earlier-Renewed :
      (id process j : ℕ) (s t u : Supervisor)
      → Launched runtime id process s t
      → Renewed j t u
      → Renewed j s u
  unfolding saturating_suc
  earlier-Renewed id process j s t u l r = record {
    state = r.state;
    process = r.process;
    world = r.world;
    restarts = if id == j then suc r.restarts else r.restarts;
    now_has = r.now_has;
    runs = r.runs;
    own = subst (λ spec. find_spec j spec.children ≡ some r.state.spec) l.same_spec r.own;
    begun = r.begun;
    counted = elim (Bool-cases (id == j)) [
      | inl same ↦ ground (arith, same, r.counted, counted_on id process j s t l)
      | inr other ↦ ground (arith, other, r.counted, counted_on id process j s t l)
    ];
  }

  first_or_later :
      (id : ℕ) (ids : List ℕ) (process : ℕ) (s t u : Supervisor)
      → Launched runtime id process s t
      → Restarted (λ j. contains j ids) t u
      → Restarted (λ j. contains j (id ∷ ids)) s u
  unfolding contains
  first_or_later id ids process s t u l later = λ j. elim (later j) [
    | inl (c, r) ↦ inl (ground (arith, c), earlier-Renewed id process j s t u l r)
    | inr (c, same) ↦ elim (Bool-cases (id == j)) [
      | inl first ↦ inl (
        ground (arith, first),
        subst (λ i. Renewed i s u) (==→eq id j first)
            (Launched-Renewed id process s t u l (
              subst (λ i. Maps.get u.children i ≡ Maps.get t.children i) (sym (==→eq id j first))
                same)),
      )
      | inr other ↦ inr (ground (arith, other, c), same ∙ ground (arith, other, l.states j))
    ]
  ]

  Result-cases : (r : Result ℕ) → ((e : Error) × (r ≡ err e)) ⊎ ((process : ℕ) × (r ≡ ok process))
  Result-cases (err e) = inl (e, refl)
  Result-cases (ok process) = inr (process, refl)

  -- After starts that all succeed.
  pub start_all-Restarted :
      (ids started : List ℕ) (s : Supervisor) (w : W)
      → (start_all runtime true ids started s w).0 ≡ none
      → Restarted (λ j. contains j ids) s (start_all runtime true ids started s w).1
  unfolding start_all contains
  start_all-Restarted [] started s w fine = λ j. inr (refl, refl)
  start_all-Restarted (id ∷ ids) started s w fine =
      elim (Result-cases (start_child_internal runtime id true s w).0) [
        | inl (e, failed) ↦ absurd (ground (arith, rw (failed, start_all) at fine))
        | inr (process, e) ↦
            rw (e, start_all)
              (first_or_later id ids process s (start_child_internal runtime id true s w).1 _
                (start_child_internal-Launches runtime id s w process e)
                (start_all-Restarted ids (id ∷ started) _ _ (rw (e, start_all) at fine)))
      ]

  -- Stops before the restarts change nothing of the others and no count.
  pub Stopped-Restarted :
      (ids : List ℕ) (in_list : ℕ → Bool) (s t u : Supervisor)
      → Stopped ids s t
      → ((j : ℕ) → contains j ids ≡ in_list j)
      → Restarted in_list t u
      → Restarted in_list s u
  Stopped-Restarted ids in_list s t u k which r = λ j. elim (r j) [
    | inl (there, n) ↦ inl (
      there,
      record {
        state = n.state;
        process = n.process;
        world = n.world;
        restarts = n.restarts;
        now_has = n.now_has;
        runs = n.runs;
        own = subst (λ spec. find_spec j spec.children ≡ some n.state.spec) k.same_spec n.own;
        begun = n.begun;
        counted = n.counted ∙ ap (λ c. min (c + suc n.restarts) (2 ^ 32 - 1)) (k.counts j);
      },
    )
    | inr (absent, same) ↦ inr (absent, same ∙ k.others j (which j ∙ absent))
  ]
