-- ===== src/Mailbox/Traffic.antt =====
-- A mailbox in use: the permits and snapshots of it that the signal queue, push errors and a hot
-- reload hold, and every call on them, in any order.
use lunatic.Prelude.{
  ℕ, zero, suc, ◌+◌, ◌≤◌, ◌≡◌, refl, ap, inl, inr, List, [], ◌∷◌, Option, none, some, arith, length,
  length-append, is_some, if◌then◌else◌, Option-cases,
}
use lunatic.External.Semaphore.{Semaphore}
use lunatic.Message.{Message, Tag}
use lunatic.Mailbox.{
  MessageMailbox, MessageMailboxSnapshot, MailboxPermit, Pushed, pushed, rejected, push,
  push_with_permit, poll, pop, pop_skip_search, snapshot, restore, into_parts, len, with_limits,
  try_reserve, drop_permit, too_big, available_capacity, bytes, resources, MessageLimitViolation,
}
use lunatic.Mailbox.Order.{
  pending, IsWellFormed, pop-Receipt, poll-Receipt, pop_skip_search-Receipt,
}
use lunatic.Mailbox.Admission.{
  len-pending, slots, slots-poll, slots-pop, slots-pop_skip_search, slots-try_reserve,
  push_with_permit_slots,
}
use lunatic.Mailbox.Migration.{pending-restore}
use lunatic.Mailbox.Push.{PushOutcome, oversized, no_slot, admitted, push-PushOutcome}

pub record World (State : Type 0) : Type 0 where
  pub mailbox : MessageMailbox State
  pub permits : ℕ
  pub snapshots : List MessageMailboxSnapshot

pub data Call : Type 0 where
  pushes : Message → Call
  reserves : Call
  pushes_staged : Message → Call
  drops : Call
  pops : Option (List Tag) → ℕ → Call
  pops_skip_search : Option (List Tag) → ℕ → Call
  polls : ℕ → Call
  takes_snapshot : Call
  restores : Call

abbrev pub snapshotted : List MessageMailboxSnapshot → ℕ
snapshotted [] = 0
snapshotted (s ∷ ss) = length s.messages + snapshotted ss

abbrev own_permit : {State : Type 0} → MessageMailbox State → MailboxPermit
own_permit mailbox = record { semaphore = mailbox.admission_id }

-- A push error may hand a permit back, which is then outside again.
abbrev returned : Pushed → ℕ
returned (pushed woken) = 0
returned (rejected e) = if is_some (into_parts e).1 then 1 else 0

module _ {State : Type 0} (sem : Semaphore State) where
  stage : ℕ → Message → World State → World State
  stage zero m w = w
  stage (suc n) m w =
      let (r, mailbox') = push_with_permit w.mailbox m (own_permit w.mailbox) in
      record w { mailbox = mailbox'; permits = n + returned r }

  discard : ℕ → World State → World State
  discard zero w = w
  discard (suc n) w = record w { mailbox = drop_permit sem w.mailbox; permits = n }

  restore_first : List MessageMailboxSnapshot → World State → World State
  restore_first [] w = w
  restore_first (s ∷ ss) w = elim (restore s w.mailbox) [
    | none ↦ w
    | some mailbox' ↦ record w { mailbox = mailbox'; snapshots = ss }
  ]

  pub step : World State → Call → World State
  unfolding stage discard restore_first
  step w (pushes m) =
      let (r, mailbox') = push sem w.mailbox m in
      record w { mailbox = mailbox'; permits = w.permits + returned r }
  step w reserves = elim (try_reserve sem w.mailbox) [
    | none ↦ w
    | some (permit, mailbox') ↦ record w { mailbox = mailbox'; permits = suc w.permits }
  ]
  step w (pushes_staged m) = stage w.permits m w
  step w drops = discard w.permits w
  step w (pops tags waker) = record w { mailbox = (pop sem tags waker w.mailbox).1 }
  step w (pops_skip_search tags waker) = record w {
    mailbox = (pop_skip_search sem tags waker w.mailbox).1;
  }
  step w (polls waker) = record w { mailbox = (poll sem waker w.mailbox).1 }
  step w takes_snapshot =
      let (s, mailbox') = snapshot w.mailbox in
      record w { mailbox = mailbox'; snapshots = s ∷ w.snapshots }
  step w restores = restore_first w.snapshots w

  pub run : World State → List Call → World State
  run w [] = w
  run w (c ∷ cs) = run (step w c) cs

  -- All slots of the mailbox, wherever they are.
  pub all_slots : World State → ℕ
  all_slots w = slots sem w.mailbox + w.permits + snapshotted w.snapshots

  pub record Inv (capacity : ℕ) (w : World State) : Type 0 where
    pub well_formed : IsWellFormed w.mailbox.inner
    pub conserved : all_slots w ≡ capacity

  returned-too_big :
      (l : MessageLimitViolation) (m : Message) → returned (rejected (too_big l m none)) ≡ 0
  unfolding too_big into_parts
  returned-too_big (bytes actual most) m = refl
  returned-too_big (resources actual most) m = refl

  pushes-Inv :
      (capacity : ℕ) (w : World State) (m : Message) (r : Pushed × MessageMailbox State)
      → PushOutcome sem w.mailbox m r
      → Inv capacity w
      → Inv capacity (record w { mailbox = r.1; permits = w.permits + returned r.0 })
  unfolding all_slots slots into_parts
  pushes-Inv capacity w m _ (oversized l e) v = record {
    well_formed = v.well_formed;
    conserved = rw (returned-too_big l m) (omega (arith, v.conserved));
  }
  pushes-Inv capacity w m _ (no_slot e z) v = record {
    well_formed = v.well_formed;
    conserved = omega (arith, v.conserved);
  }
  pushes-Inv capacity w m _ (admitted woken mailbox' permit e one shown wf) v = record {
    well_formed = wf;
    conserved = omega (
      arith,
      v.conserved,
      ap length shown,
      length-append (pending w.mailbox.inner) (record { message = m; permit = permit } ∷ []),
    );
  }

  stage-Inv :
      (capacity n : ℕ) (m : Message) (w : World State)
      → w.permits ≡ n
      → Inv capacity w
      → Inv capacity (stage n m w)
  unfolding stage all_slots
  stage-Inv capacity zero m w e v = v
  stage-Inv capacity (suc n) m w e v =
      elim (push_with_permit_slots sem w.mailbox _ m (own_permit w.mailbox) _ v.well_formed refl) [
        | inl (woken, r, used, wf) ↦ record {
          well_formed = wf;
          conserved = rw r (omega (arith, v.conserved));
        }
        | inr (err, r, parts, same) ↦ record {
          well_formed = rw same v.well_formed;
          conserved = rw r (rw parts (rw same (omega (arith, v.conserved))));
        }
      ]

  discard-Inv :
      (capacity n : ℕ) (w : World State)
      → w.permits ≡ n
      → Inv capacity w
      → Inv capacity (discard n w)
  unfolding discard all_slots slots drop_permit
  discard-Inv capacity zero w e v = v
  discard-Inv capacity (suc n) w e v = record {
    well_formed = v.well_formed;
    conserved = omega (arith, v.conserved, sem.available-release w.mailbox.admission);
  }

  reserves-Inv : (capacity : ℕ) (w : World State) → Inv capacity w → Inv capacity (step w reserves)
  unfolding step all_slots try_reserve
  reserves-Inv capacity w v = elim (Option-cases (try_reserve sem w.mailbox)) [
    | inl e ↦ rw (e, step) v
    | inr ((permit, mailbox'), e) ↦
        rw (e, step)
          (record {
            well_formed = rw (reserved-inner mailbox' permit e) v.well_formed;
            conserved =
                omega (arith, v.conserved, slots-try_reserve sem w.mailbox mailbox' permit e);
          })
  ]
    where
      reserved-inner :
          (mailbox' : MessageMailbox State) (permit : MailboxPermit)
          → try_reserve sem w.mailbox ≡ some (permit, mailbox')
          → mailbox'.inner ≡ w.mailbox.inner
      reserved-inner mailbox' permit e = ground arith

  restore_first-Inv :
      (capacity : ℕ) (ss : List MessageMailboxSnapshot) (w : World State)
      → w.snapshots ≡ ss
      → Inv capacity w
      → Inv capacity (restore_first ss w)
  unfolding restore_first all_slots slots
  restore_first-Inv capacity [] w e v = v
  restore_first-Inv capacity (s ∷ ss) w e v = elim (Option-cases (restore s w.mailbox)) [
    | inl refused ↦ rw (refused, restore_first) v
    | inr (mailbox', done) ↦
        let (shown, wf, same) = pending-restore s w.mailbox mailbox' done in
        rw (done, restore_first)
          (record {
            well_formed = wf;
            conserved = omega (
              arith,
              v.conserved,
              ap length shown,
              ap sem.available_permits same,
              ap snapshotted e,
              length-append s.messages (pending w.mailbox.inner),
            );
          })
  ]

  snapshot-Inv :
      (capacity : ℕ) (w : World State) → Inv capacity w → Inv capacity (step w takes_snapshot)
  unfolding step all_slots slots snapshot pending
  snapshot-Inv capacity w v = record {
    well_formed = record { exclusive = inr refl; in_range = tt };
    conserved = omega (arith, v.conserved);
  }

  step-Inv : (capacity : ℕ) (w : World State) (c : Call) → Inv capacity w → Inv capacity (step w c)
  unfolding step all_slots
  step-Inv capacity w (pushes m) v =
      pushes-Inv capacity w m _ (push-PushOutcome sem w.mailbox m v.well_formed) v
  step-Inv capacity w reserves v = reserves-Inv capacity w v
  step-Inv capacity w (pushes_staged m) v = stage-Inv capacity w.permits m w refl v
  step-Inv capacity w drops v = discard-Inv capacity w.permits w refl v
  step-Inv capacity w (pops tags waker) v = record {
    well_formed = (pop-Receipt sem tags waker w.mailbox).1;
    conserved = omega (arith, v.conserved, slots-pop sem tags waker w.mailbox);
  }
  step-Inv capacity w (pops_skip_search tags waker) v = record {
    well_formed = (pop_skip_search-Receipt sem tags waker w.mailbox).1;
    conserved = omega (arith, v.conserved, slots-pop_skip_search sem tags waker w.mailbox);
  }
  step-Inv capacity w (polls waker) v = record {
    well_formed = (poll-Receipt sem waker w.mailbox).1;
    conserved = omega (arith, v.conserved, slots-poll sem waker w.mailbox);
  }
  step-Inv capacity w takes_snapshot v = snapshot-Inv capacity w v
  step-Inv capacity w restores v = restore_first-Inv capacity w.snapshots w refl v

  run-Inv :
      (capacity : ℕ) (w : World State) (cs : List Call) → Inv capacity w → Inv capacity (run w cs)
  unfolding run
  run-Inv capacity w [] v = v
  run-Inv capacity w (c ∷ cs) v = run-Inv capacity (step w c) cs (step-Inv capacity w c v)

  pub start : ℕ → ℕ → ℕ → ℕ → World State
  start id capacity max_bytes max_resources = record {
    mailbox = with_limits sem id capacity max_bytes max_resources;
    permits = 0;
    snapshots = [];
  }

  start-Inv :
      (id capacity max_bytes max_resources : ℕ)
      → Inv capacity (start id capacity max_bytes max_resources)
  unfolding start with_limits all_slots slots pending
  start-Inv id capacity max_bytes max_resources = record {
    well_formed = record { exclusive = inl refl; in_range = tt };
    conserved = omega (arith, sem.available-new capacity);
  }

  -- After any calls in any order on a new mailbox, every one of its slots is free, held as a permit,
  -- or taken by one message that is pending or in a snapshot: no slot is lost and none is made up.
  -- So what is pending or snapshotted never passes the capacity.
  pub run-slots :
      (id capacity max_bytes max_resources : ℕ) (cs : List Call)
      → let w = run (start id capacity max_bytes max_resources) cs in
        (available_capacity sem w.mailbox + w.permits + len w.mailbox + snapshotted w.snapshots
          ≡ capacity)
        × (len w.mailbox + snapshotted w.snapshots ≤ capacity)
  unfolding all_slots slots available_capacity
  run-slots id capacity max_bytes max_resources cs =
      let v = run-Inv capacity _ cs (start-Inv id capacity max_bytes max_resources) in
      omega (
        arith,
        v.conserved,
        len-pending (run (start id capacity max_bytes max_resources) cs).mailbox,
      )
