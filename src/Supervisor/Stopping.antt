-- ===== src/Supervisor/Stopping.antt =====
-- crates/lunatic-otp-patterns/src/supervisor.rs, `stop_child` and `stop_all`: what they leave of the
-- states of the children.
use lunatic.Prelude.{
  ℕ, ◌≡◌, inl, inr, refl, ap, ◌∙◌, subst, List, [], ◌∷◌, none, some, false, ◌==◌, ==_refl, ==→eq,
  arith, contains, Bool-cases, Option-cases,
}
use lunatic.Prelude.Maps
use lunatic.Prelude.Maps.{get-put}
use lunatic.Supervisor.{
  ChildState, Supervisor, Runtime, refresh_cleanup_tracker, clear_process, stop_registered,
  stop_child, wait_for_process_exit, stop_limit,
}
use lunatic.Supervisor.Restarts.{stop_all}

-- How often a child was restarted, no times where it has no state.
unfoldable pub count_of : ℕ → List (ℕ × ChildState) → ℕ
count_of id children = elim (Maps.get children id) [ none ↦ 0 | some state ↦ state.restart_count ]

pub refreshed_children : (s : Supervisor) → (refresh_cleanup_tracker s).children ≡ s.children
unfolding refresh_cleanup_tracker
refreshed_children s = ground arith

pub refreshed_spec : (s : Supervisor) → (refresh_cleanup_tracker s).spec ≡ s.spec
unfolding refresh_cleanup_tracker
refreshed_spec s = ground arith

-- No count is changed, nor the specification, nor the state of another child than `id`.
pub record Keeps (id : ℕ) (s t : Supervisor) : Type 0 where
  pub counts : (j : ℕ) → count_of j t.children ≡ count_of j s.children
  pub others : (j : ℕ) → (id == j) ≡ false → Maps.get t.children j ≡ Maps.get s.children j
  pub same_spec : t.spec ≡ s.spec

Keeps-refl : (id : ℕ) (s : Supervisor) → Keeps id s s
Keeps-refl id s = record { counts = λ j. refl; others = λ j other. refl; same_spec = refl }

put-Keeps :
    (id : ℕ) (state : ChildState) (s : Supervisor)
    → Maps.get s.children id ≡ some state
    → Keeps id s (record s { children = Maps.put id (record state { process = none }) s.children })
unfolding count_of
put-Keeps id state s e = record {
  counts = λ j. elim (Bool-cases (id == j)) [
    | inl same ↦
        let i = ==→eq id j same in
        subst
          (λ i.
            count_of i (Maps.put id (record state { process = none }) s.children)
            ≡ count_of i s.children)
          i
          (ground
            (arith, e, ==_refl id, get-put id (record state { process = none }) s.children id))
    | inr other ↦ ground (arith, other, get-put id (record state { process = none }) s.children j)
  ];
  others =
      λ j other. ground (arith, other, get-put id (record state { process = none }) s.children j);
  same_spec = refl;
}

refreshed-Keeps :
    (id : ℕ) (s t : Supervisor) → Keeps id s t → Keeps id s (refresh_cleanup_tracker t)
refreshed-Keeps id s t k = record {
  counts = λ j. ap (count_of j) (refreshed_children t) ∙ k.counts j;
  others = λ j other. ap (λ cs. Maps.get cs j) (refreshed_children t) ∙ k.others j other;
  same_spec = refreshed_spec t ∙ k.same_spec;
}

pub cleared-Keeps :
    (id : ℕ) (s : Supervisor) → Keeps id s (refresh_cleanup_tracker (clear_process id s))
unfolding clear_process
cleared-Keeps id s =
    refreshed-Keeps id s (clear_process id s) (elim (Option-cases (Maps.get s.children id)) [
      | inl absent ↦ rw (absent, clear_process) (Keeps-refl id s)
      | inr (state, e) ↦ rw (e, clear_process) (put-Keeps id state s e)
    ])

-- What stops leave as it was.
pub record Stopped (ids : List ℕ) (s t : Supervisor) : Type 0 where
  pub counts : (j : ℕ) → count_of j t.children ≡ count_of j s.children
  pub others : (j : ℕ) → contains j ids ≡ false → Maps.get t.children j ≡ Maps.get s.children j
  pub same_spec : t.spec ≡ s.spec

one-Stopped : (id : ℕ) (ids : List ℕ) (s t : Supervisor) → Keeps id s t → Stopped (id ∷ ids) s t
unfolding contains
one-Stopped id ids s t k = record {
  counts = k.counts;
  others = λ j h. k.others j (ground (arith, h));
  same_spec = k.same_spec;
}

then-Stopped :
    (id : ℕ) (ids : List ℕ) (s t u : Supervisor)
    → Keeps id s t
    → Stopped ids t u
    → Stopped (id ∷ ids) s u
unfolding contains
then-Stopped id ids s t u k r = record {
  counts = λ j. r.counts j ∙ k.counts j;
  others = λ j h. r.others j (ground (arith, h)) ∙ k.others j (ground (arith, h));
  same_spec = r.same_spec ∙ k.same_spec;
}

module _ {W : Type 0} (runtime : Runtime W) where
  stop_registered-Keeps :
      (id : ℕ) (state : ChildState) (process : ℕ) (s : Supervisor) (w : W)
      → Keeps id s (stop_registered runtime id state process s w).1
  unfolding stop_registered
  stop_registered-Keeps id state process s w =
      let w1 = (runtime.kill process w).1 in
      elim (Bool-cases (runtime.kill process w).0) [
        | inr unsent ↦ rw (unsent, stop_registered) (Keeps-refl id s)
        | inl sent ↦
            elim (Bool-cases
              (wait_for_process_exit runtime
                (runtime.looks (stop_limit state.spec.shutdown) process w1) process w1).0) [
                  | inl gone ↦ rw (sent, gone, stop_registered) (cleared-Keeps id s)
                  | inr there ↦ rw (sent, there, stop_registered) (Keeps-refl id s)
                ]
      ]

  pub stop_child-Keeps :
      (id : ℕ) (s : Supervisor) (w : W) → Keeps id s (stop_child runtime id s w).1
  unfolding stop_child
  stop_child-Keeps id s w = elim (Bool-cases (runtime.multi_thread w)) [
    | inr single ↦ rw (single, stop_child) (Keeps-refl id s)
    | inl many ↦ elim (Option-cases (Maps.get s.children id)) [
      | inl absent ↦ rw (many, absent, stop_child) (Keeps-refl id s)
      | inr (state, e) ↦ elim (Option-cases state.process) [
        | inl idle ↦ rw (many, e, idle, stop_child) (Keeps-refl id s)
        | inr (process, p) ↦ elim (Bool-cases (runtime.registered w process)) [
          | inl alive ↦
              rw (many, e, p, alive, stop_child) (stop_registered-Keeps id state process s w)
          | inr gone ↦ rw (many, e, p, gone, stop_child) (cleared-Keeps id s)
        ]
      ]
    ]
  ]

  pub stop_all-Stopped :
      (ids : List ℕ) (s : Supervisor) (w : W) → Stopped ids s (stop_all runtime ids s w).1
  unfolding stop_all
  stop_all-Stopped [] s w = record { counts = λ j. refl; others = λ j h. refl; same_spec = refl }
  stop_all-Stopped (id ∷ ids) s w =
      let k = stop_child-Keeps id s w in
      elim (Option-cases (stop_child runtime id s w).0) [
        | inr (e, failed) ↦ rw (failed, stop_all) (one-Stopped id ids s _ k)
        | inl fine ↦
            rw (fine, stop_all)
              (then-Stopped id ids s _ _ k
                (stop_all-Stopped ids (stop_child runtime id s w).1 (stop_child runtime id s w).2))
      ]
