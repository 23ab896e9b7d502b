-- ===== src/Reload/Confirmed.antt =====
-- crates/lunatic-process/src/hot_reload.rs: a phase that every target answers in time.
use lunatic.Prelude.{
  ℕ, ◌≤◌, ◌≡◌, inl, inr, refl, ◌∙◌, List, [], ◌∷◌, ◌++◌, Option, none, some, Bool, true, false,
  arith, contains, count, ==_refl, Bool-cases, All,
}
use lunatic.External.ConcurrentMap.{ConcurrentMap}
use lunatic.ModuleRegistry.{sort_dedup}
use lunatic.Reload.{
  ReloadAcknowledgement, ProcessReloadStatus, applied, already_at_target, failed, is_success,
  ReloadOperation, Reply, Request, hot_reload, AcknowledgementCollection, status_error,
  protocol_error, take_reply, remove_one, collect_loop, time_outs, sort_by_key,
  collect_acknowledgements, dispatch, committed, status, is_reload_in_progress,
  perform_atomic_reload, apply_phase,
}
use lunatic.Reload.Collecting.{Confirms, count-remove_one}
use lunatic.Reload.Outcomes.{finish-Holds, start_reload-begins}
use lunatic.Reload.Targets.{count-sort_dedup}

unfoldable pub repliers : List Reply → List ℕ
repliers [] = []
repliers ((id, reply) ∷ replies) = id ∷ repliers replies

-- A reply of the process asked, which confirms.
abbrev pub Good : ℕ → ℕ → Reply → Type 0
Good module_id version (id, reply) =
    (a : ReloadAcknowledgement) × (reply ≡ some a)
    × (a.process_id ≡ id)
    × Confirms module_id version a

status_error-success :
    (current target : ℕ) (s : ProcessReloadStatus)
    → current ≡ target
    → is_success s ≡ true
    → status_error current target s ≡ none
unfolding status_error is_success
status_error-success current target applied h q = ground (arith, h)
status_error-success current target already_at_target h q = ground (arith, h)
status_error-success current target (failed text) h q = absurd (ground (arith, q))

confirmed_reply :
    (module_id version id : ℕ) (a : ReloadAcknowledgement)
    → a.process_id ≡ id
    → Confirms module_id version a
    → protocol_error id module_id version a ≡ none
unfolding protocol_error
confirmed_reply module_id version id a same c = ground (
  arith,
  same,
  c.of_module,
  status_error-success a.current_version version a.status c.at_target c.successful,
)

Good-clean :
    (module_id version id : ℕ) (reply : Option ReloadAcknowledgement)
    (c : AcknowledgementCollection)
    → Good module_id version (id, reply)
    → (take_reply module_id version id reply c).errors ≡ c.errors
unfolding take_reply
Good-clean module_id version id reply c (a, e, same, confirms) =
    rw e (rw (confirmed_reply module_id version id a same confirms, take_reply) refl)

count-zero : (x : ℕ) (xs : List ℕ) → contains x xs ≡ false → count x xs ≡ 0
unfolding contains count
count-zero x [] h = refl
count-zero x (y ∷ xs) h = ground (arith, count-zero x xs, h)

module _ (module_id version : ℕ) where
  collect_loop-clean :
      (replies : List Reply) (pending : List ℕ) (c : AcknowledgementCollection)
      → All (Good module_id version) replies
      → (collect_loop module_id version replies pending c).1.errors ≡ c.errors
  unfolding collect_loop
  collect_loop-clean [] pending c h = refl
  collect_loop-clean ((id, reply) ∷ replies) pending c (h, hs) =
      elim (Bool-cases (contains id pending)) [
        | inl there ↦
            rw (there, collect_loop)
              (collect_loop-clean replies (remove_one id pending)
                  (take_reply module_id version id reply c) hs
                ∙ Good-clean module_id version id reply c h)
        | inr gone ↦ rw (gone, collect_loop) (collect_loop-clean replies pending c hs)
      ]

  collect_loop-falls :
      (x : ℕ) (replies : List Reply) (pending : List ℕ) (c : AcknowledgementCollection)
      → count x (collect_loop module_id version replies pending c).0 ≤ count x pending
  unfolding collect_loop
  collect_loop-falls x [] pending c = omega arith
  collect_loop-falls x ((id, reply) ∷ replies) pending c = elim (Bool-cases (contains id pending)) [
    | inl there ↦
        rw (there, collect_loop)
          (omega (
            arith,
            count-remove_one x id pending there,
            collect_loop-falls x replies (remove_one id pending)
                (take_reply module_id version id reply c),
          ))
    | inr gone ↦ rw (gone, collect_loop) (collect_loop-falls x replies pending c)
  ]

  -- Who has replied is no longer pending.
  collect_loop-takes :
      (x : ℕ) (replies : List Reply) (pending : List ℕ) (c : AcknowledgementCollection)
      → count x pending ≤ 1
      → contains x (repliers replies) ≡ true
      → count x (collect_loop module_id version replies pending c).0 ≡ 0
  unfolding collect_loop contains repliers count
  collect_loop-takes x [] pending c one h = absurd (ground (arith, h))
  collect_loop-takes x ((id, reply) ∷ replies) pending c one h =
      elim (Bool-cases (contains id pending)) [
        | inl there ↦
            rw (there, collect_loop)
              (ground (
                arith,
                h,
                count-remove_one x id pending there,
                collect_loop-falls x replies (remove_one id pending)
                    (take_reply module_id version id reply c),
                collect_loop-takes x replies (remove_one id pending)
                    (take_reply module_id version id reply c),
              ))
        | inr gone ↦
            rw (gone, collect_loop)
              (ground (
                arith,
                h,
                count-zero id pending gone,
                collect_loop-falls x replies pending c,
                collect_loop-takes x replies pending c,
              ))
      ]

uncounted : (xs : List ℕ) → ((x : ℕ) → count x xs ≡ 0) → xs ≡ []
unfolding count
uncounted [] h = refl
uncounted (x ∷ xs) h = absurd (ground (arith, h x, ==_refl x))

collected-clean :
    (module_id version : ℕ) (affected : List ℕ) (replies : List Reply)
    → All (Good module_id version) replies
    → ((x : ℕ) → contains x affected ≡ true → contains x (repliers replies) ≡ true)
    → (collect_acknowledgements (sort_dedup affected) replies module_id version).errors ≡ []
unfolding collect_acknowledgements sort_by_key time_outs
collected-clean module_id version affected replies good all =
    let start : AcknowledgementCollection = record { acknowledgements = []; errors = [] } in
    let none_left =
      uncounted (collect_loop module_id version replies (sort_dedup affected) start).0 gone in
    rw
      (
        collect_loop-clean module_id version replies (sort_dedup affected) start good,
        none_left,
        collect_acknowledgements,
      )
      refl
  where
    gone :
        (x : ℕ)
        → count x
            (collect_loop module_id version replies
              (sort_dedup affected)
              (record { acknowledgements = []; errors = [] })).0
          ≡ 0
    gone x =
        let start : AcknowledgementCollection = record { acknowledgements = []; errors = [] } in
        elim (Bool-cases (contains x affected)) [
          | inl asked ↦
              collect_loop-takes module_id version x replies (sort_dedup affected) start
                (ground (arith, count-sort_dedup x affected)) (all x asked)
          | inr other ↦ ground (
            arith,
            count-sort_dedup x affected,
            other,
            collect_loop-falls module_id version x replies (sort_dedup affected) start,
          )
        ]

dispatch-delivered :
    (deliver : ℕ → Request → Bool) (request : Request) (ids : List ℕ)
    → ((x : ℕ) → 1 ≤ count x ids → deliver x request ≡ true)
    → dispatch deliver request ids ≡ []
unfolding dispatch count
dispatch-delivered deliver request [] h = refl
dispatch-delivered deliver request (id ∷ ids) h = ground (
  arith,
  h id,
  ==_refl id,
  dispatch-delivered deliver request ids (λ x some_later. h x (ground (arith, some_later))),
)

module _ {O : Type 0} (operations : ConcurrentMap ReloadOperation O) where
  -- Where no reload of the module runs or is in doubt, every affected process can be reached, and
  -- each replies before the deadline, in any order, with an acknowledgement of its own that confirms
  -- the new version, the reload succeeds and the module is committed.
  pub confirmed-commits :
      (deliver : ℕ → Request → Bool) (apply_replies rollback_replies : List Reply)
      (module_id old_version new_version : ℕ) (affected : List ℕ) (ops : O)
      → is_reload_in_progress operations module_id ops ≡ false
      → ((x : ℕ)
          → contains x affected ≡ true
          → deliver x (hot_reload module_id old_version new_version) ≡ true)
      → All (Good module_id new_version) apply_replies
      → ((x : ℕ) → contains x affected ≡ true → contains x (repliers apply_replies) ≡ true)
      → let (failure, after) =
          perform_atomic_reload operations deliver apply_replies rollback_replies module_id
            old_version new_version affected ops in
        (failure ≡ none)
        × (acks : List ReloadAcknowledgement) × (status operations module_id after
            ≡ some (committed acks))
  unfolding perform_atomic_reload apply_phase
  confirmed-commits deliver apply_replies rollback_replies module_id old_version new_version
        affected ops idle reach good all =
      let (e, held, targets) = start_reload-begins operations module_id affected ops idle in
      let request = hot_reload module_id old_version new_version in
      let sent =
        dispatch-delivered deliver request (sort_dedup affected)
          (λ x h. reach x (ground (arith, h, count-sort_dedup x affected))) in
      let collection =
        collect_acknowledgements (sort_dedup affected)
          (dispatch deliver request (sort_dedup affected) ++ apply_replies) module_id new_version in
      let clean : collection.errors ≡ [] =
        rw sent (collected-clean module_id new_version affected apply_replies good all) in
      let (f, done) =
        finish-Holds operations module_id _ (committed collection.acknowledgements) none ops _
          held in
      rw (e, targets, perform_atomic_reload)
        (rw (clean, apply_phase) (f, collection.acknowledgements, done.held))
