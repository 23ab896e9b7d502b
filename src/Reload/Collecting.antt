-- ===== src/Reload/Collecting.antt =====
-- crates/lunatic-process/src/hot_reload.rs, `collect_acknowledgements`: the reports of one phase.
use lunatic.Prelude.{
  ℕ, ◌+◌, ◌≡◌, inl, inr, refl, List, [], ◌∷◌, ◌++◌, Option, none, some, true, arith, contains,
  count, ltb, Bool-cases, Option-cases, All, All-append,
}
use lunatic.Reload.{
  ReloadAcknowledgement, ProcessReloadError, ProcessReloadStatus, applied, already_at_target,
  failed, is_success, AcknowledgementCollection, Reply, Problem, channel_closed, status_error,
  protocol_error, take_reply, remove_one, collect_loop, time_outs, insert_by_key, sort_by_key,
  collect_acknowledgements,
}

unfoldable pub answered : List ReloadAcknowledgement → List ℕ
answered [] = []
answered (a ∷ acks) = a.process_id ∷ answered acks

unfoldable pub failing : List ProcessReloadError → List ℕ
failing [] = []
failing (e ∷ es) = e.process_id ∷ failing es

-- An acknowledgement that counts: of this module, a success, at the version asked for.
pub record Confirms (module_id target_version : ℕ) (a : ReloadAcknowledgement) : Type 0 where
  pub of_module : a.module_id ≡ module_id
  pub at_target : a.current_version ≡ target_version
  pub successful : is_success a.status ≡ true

answered-snoc :
    (x : ℕ) (acks : List ReloadAcknowledgement) (a : ReloadAcknowledgement)
    → count x (answered (acks ++ a ∷ [])) ≡ count x (answered acks) + count x (a.process_id ∷ [])
unfolding answered count
answered-snoc x [] a = omega arith
answered-snoc x (b ∷ acks) a = ground (arith, answered-snoc x acks a)

failing-append :
    (x : ℕ) (es fs : List ProcessReloadError)
    → count x (failing (es ++ fs)) ≡ count x (failing es) + count x (failing fs)
unfolding failing count
failing-append x [] fs = omega arith
failing-append x (e ∷ es) fs = ground (arith, failing-append x es fs)

status-Confirms :
    (current target : ℕ) (s : ProcessReloadStatus)
    → status_error current target s ≡ none
    → (current ≡ target) × (is_success s ≡ true)
unfolding status_error is_success
status-Confirms current target applied h = (ground (arith, h), refl)
status-Confirms current target already_at_target h = (ground (arith, h), refl)
status-Confirms current target (failed text) h = absurd (ground (arith, h))

protocol-Confirms :
    (process_id module_id target : ℕ) (a : ReloadAcknowledgement)
    → protocol_error process_id module_id target a ≡ none
    → (a.process_id ≡ process_id) × Confirms module_id target a
unfolding protocol_error
protocol-Confirms process_id module_id target a h =
    let same : a.process_id ≡ process_id = ground (arith, h) in
    let its : a.module_id ≡ module_id = ground (arith, h) in
    let (v, ok) = status-Confirms a.current_version target a.status (ground (arith, h)) in
    (same, record { of_module = its; at_target = v; successful = ok })

-- How often a process is reported, as done or as failing.
abbrev pub reports : ℕ → AcknowledgementCollection → ℕ
reports x c = count x (answered c.acknowledgements) + count x (failing c.errors)

failed_once :
    (x process_id : ℕ) (m : Problem) (known : Option ℕ) (c : AcknowledgementCollection)
    → count x (
        failing
          (c.errors ++ record { process_id = process_id; message = m; known_version = known } ∷ []))
      ≡ count x (failing c.errors) + count x (process_id ∷ [])
unfolding failing
failed_once x process_id m known c = failing-append x c.errors _

take_reply-reports :
    (module_id target process_id x : ℕ) (r : Option ReloadAcknowledgement)
    (c : AcknowledgementCollection)
    → reports x (take_reply module_id target process_id r c)
      ≡ reports x c + count x (process_id ∷ [])
unfolding take_reply
take_reply-reports module_id target process_id x none c =
    omega (arith, failed_once x process_id channel_closed none c)
take_reply-reports module_id target process_id x (some a) c =
    elim (Option-cases (protocol_error process_id module_id target a)) [
      | inl good ↦
          let (same, _) = protocol-Confirms process_id module_id target a good in
          rw (good, take_reply) (rw (← same) (omega (arith, answered-snoc x c.acknowledgements a)))
      | inr (m, bad) ↦
          rw (bad, take_reply)
            (omega (arith, failed_once x process_id m (some a.current_version) c))
    ]

pub count-remove_one :
    (x a : ℕ) (xs : List ℕ)
    → contains a xs ≡ true
    → count x (remove_one a xs) + count x (a ∷ []) ≡ count x xs
unfolding remove_one contains count
count-remove_one x a [] h = absurd (ground (arith, h))
count-remove_one x a (y ∷ xs) h = ground (arith, h, count-remove_one x a xs)

time_outs-reports : (x : ℕ) (ids : List ℕ) → count x (failing (time_outs ids)) ≡ count x ids
unfolding time_outs failing count
time_outs-reports x [] = refl
time_outs-reports x (id ∷ ids) = ground (arith, time_outs-reports x ids)

-- What is pending and what is reported add up, reply by reply.
collect_loop-reports :
    (module_id target x : ℕ) (replies : List Reply) (pending : List ℕ)
    (c : AcknowledgementCollection)
    → let (pending', c') = collect_loop module_id target replies pending c in
      count x pending' + reports x c' ≡ count x pending + reports x c
unfolding collect_loop
collect_loop-reports module_id target x [] pending c = refl
collect_loop-reports module_id target x ((id, reply) ∷ replies) pending c =
    elim (Bool-cases (contains id pending)) [
      | inl there ↦
          rw (there, collect_loop)
            (omega (
              arith,
              collect_loop-reports module_id target x replies (remove_one id pending)
                  (take_reply module_id target id reply c),
              count-remove_one x id pending there,
              take_reply-reports module_id target id x reply c,
            ))
      | inr gone ↦
          rw (gone, collect_loop) (collect_loop-reports module_id target x replies pending c)
    ]

insert-answered :
    (x : ℕ) (a : ReloadAcknowledgement) (acks : List ReloadAcknowledgement)
    → count x (answered (insert_by_key (λ (b : ReloadAcknowledgement). b.process_id) a acks))
      ≡ count x (answered (a ∷ acks))
unfolding insert_by_key answered count
insert-answered x a [] = refl
insert-answered x a (b ∷ acks) = ground (arith, insert-answered x a acks)

sort-answered :
    (x : ℕ) (acks : List ReloadAcknowledgement)
    → count x (answered (sort_by_key (λ (b : ReloadAcknowledgement). b.process_id) acks))
      ≡ count x (answered acks)
unfolding sort_by_key answered count
sort-answered x [] = refl
sort-answered x (a ∷ acks) = ground (
  arith,
  insert-answered x a (sort_by_key (λ (b : ReloadAcknowledgement). b.process_id) acks),
  sort-answered x acks,
)

insert-failing :
    (x : ℕ) (e : ProcessReloadError) (es : List ProcessReloadError)
    → count x (failing (insert_by_key (λ (f : ProcessReloadError). f.process_id) e es))
      ≡ count x (failing (e ∷ es))
unfolding insert_by_key failing count
insert-failing x a [] = refl
insert-failing x a (b ∷ es) = ground (arith, insert-failing x a es)

sort-failing :
    (x : ℕ) (es : List ProcessReloadError)
    → count x (failing (sort_by_key (λ (f : ProcessReloadError). f.process_id) es))
      ≡ count x (failing es)
unfolding sort_by_key failing count
sort-failing x [] = refl
sort-failing x (e ∷ es) = ground (
  arith,
  insert-failing x e (sort_by_key (λ (f : ProcessReloadError). f.process_id) es),
  sort-failing x es,
)

pub collected-reports :
    (module_id target x : ℕ) (receivers : List ℕ) (replies : List Reply)
    → reports x (collect_acknowledgements receivers replies module_id target) ≡ count x receivers
unfolding collect_acknowledgements count answered sort_by_key collect_loop failing
collected-reports module_id target x receivers replies =
    let start : AcknowledgementCollection = record { acknowledgements = []; errors = [] } in
    let (pending, c) = collect_loop module_id target replies receivers start in
    let whole = collect_loop-reports module_id target x replies receivers start in
    omega (
      arith,
      whole,
      sort-answered x c.acknowledgements,
      sort-failing x (c.errors ++ time_outs pending),
      failing-append x c.errors (time_outs pending),
      time_outs-reports x pending,
    )

take_reply-Valid :
    (module_id target process_id : ℕ) (r : Option ReloadAcknowledgement)
    (c : AcknowledgementCollection)
    → All (Confirms module_id target) c.acknowledgements
    → All (Confirms module_id target) (take_reply module_id target process_id r c).acknowledgements
unfolding take_reply
take_reply-Valid module_id target process_id none c h = h
take_reply-Valid module_id target process_id (some a) c h =
    elim (Option-cases (protocol_error process_id module_id target a)) [
      | inl good ↦
          let (_, valid) = protocol-Confirms process_id module_id target a good in
          rw (good, take_reply) (All-append _ c.acknowledgements (a ∷ []) h (valid, tt))
      | inr (m, bad) ↦ rw (bad, take_reply) h
    ]

collect_loop-Valid :
    (module_id target : ℕ) (replies : List Reply) (pending : List ℕ) (c : AcknowledgementCollection)
    → All (Confirms module_id target) c.acknowledgements
    → All
        (Confirms module_id target)
        (collect_loop module_id target replies pending c).1.acknowledgements
unfolding collect_loop
collect_loop-Valid module_id target [] pending c h = h
collect_loop-Valid module_id target ((id, reply) ∷ replies) pending c h =
    elim (Bool-cases (contains id pending)) [
      | inl there ↦
          rw (there, collect_loop)
            (collect_loop-Valid module_id target replies (remove_one id pending)
              (take_reply module_id target id reply c)
              (take_reply-Valid module_id target id reply c h))
      | inr gone ↦ rw (gone, collect_loop) (collect_loop-Valid module_id target replies pending c h)
    ]

module _ {A : Type 0} (key : A → ℕ) (P : A → Type 0) where
  insert-All : (a : A) (xs : List A) → P a → All P xs → All P (insert_by_key key a xs)
  unfolding insert_by_key
  insert-All a [] h hs = (h, tt)
  insert-All a (x ∷ xs) h (hx, hs) = elim (Bool-cases (ltb (key x) (key a))) [
    | inl later ↦ rw (later, insert_by_key) (hx, insert-All a xs h hs)
    | inr here ↦ rw (here, insert_by_key) (h, (hx, hs))
  ]

  sort-All : (xs : List A) → All P xs → All P (sort_by_key key xs)
  unfolding sort_by_key
  sort-All [] h = tt
  sort-All (x ∷ xs) (h, hs) = insert-All x (sort_by_key key xs) h (sort-All xs hs)

pub collected-Confirms :
    (module_id target : ℕ) (receivers : List ℕ) (replies : List Reply)
    → All
        (Confirms module_id target)
        (collect_acknowledgements receivers replies module_id target).acknowledgements
unfolding collect_acknowledgements
collected-Confirms module_id target receivers replies =
    sort-All (λ (a : ReloadAcknowledgement). a.process_id) _ _
      (collect_loop-Valid module_id target replies receivers
        (record { acknowledgements = []; errors = [] }) tt)
