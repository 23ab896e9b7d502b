-- ===== src/Mailbox/Push.antt =====
-- `MessageMailbox::push`, on every branch.
use lunatic.Prelude.{
  ℕ, suc, ◌≤◌, ◌<◌, ◌^◌, ◌-◌, min, ltb, subst, Bool-cases, ◌≡◌, ap, sym, ◌∙◌, ◌⊎◌, inl, inr, [],
  ◌∷◌, ◌++◌, Option, none, some, arith, Option-cases,
}
use lunatic.External.Semaphore.{Semaphore}
use lunatic.Message.{Message, DataMessage, DeathReason, Tag, data_message, link_died, process_died}
use lunatic.Mailbox.{
  MessageMailbox, u64_or_max, bytes, resources, MailboxPermit, MessageLimitViolation, full, Pushed,
  pushed, rejected, deliver, push, push_with_permit, limit_violation, try_reserve, too_big,
}
use lunatic.Mailbox.Order.{pending, IsWellFormed, deliver-IsWellFormed, pending-deliver}

-- What a message allocates, as the 64-bit number that is compared with a limit.
abbrev pub measured : ℕ → ℕ
measured n = min n (2 ^ 64 - 1)

-- A data message that allocates more bytes than a message may, or else more resource slots.
pub data IsOversized {State : Type 0} (mailbox : MessageMailbox State)
    : Message → MessageLimitViolation → Type 0 where
  too_many_bytes :
      {d : DataMessage}
      → mailbox.max_message_bytes < measured d.buffer_capacity
      → IsOversized mailbox
          (data_message d)
          (bytes (measured d.buffer_capacity) mailbox.max_message_bytes)
  too_many_resources :
      {d : DataMessage}
      → measured d.buffer_capacity ≤ mailbox.max_message_bytes
      → mailbox.max_message_resources < measured d.resources_capacity
      → IsOversized mailbox
          (data_message d)
          (resources (measured d.resources_capacity) mailbox.max_message_resources)

-- A message within both limits, which only data messages have.
pub data IsWithin {State : Type 0} (mailbox : MessageMailbox State) : Message → Type 0 where
  within_limits :
      {d : DataMessage}
      → measured d.buffer_capacity ≤ mailbox.max_message_bytes
      → measured d.resources_capacity ≤ mailbox.max_message_resources
      → IsWithin mailbox (data_message d)
  unlimited_link : {t : Option Tag} → IsWithin mailbox (link_died t)
  unlimited_end : {id : ℕ} {reason : DeathReason} → IsWithin mailbox (process_died id reason)

u64_or_max_lem : (n : ℕ) → u64_or_max n ≡ measured n
u64_or_max_lem n = ground arith

module _ {State : Type 0} where
  limit_violation-IsOversized :
      (mailbox : MessageMailbox State) (m : Message) (v : MessageLimitViolation)
      → limit_violation mailbox m ≡ some v
      → IsOversized mailbox m v
  unfolding limit_violation
  limit_violation-IsOversized mailbox (data_message d) v h =
      let size = u64_or_max_lem d.buffer_capacity in
      let slots = u64_or_max_lem d.resources_capacity in
      elim (Bool-cases (ltb mailbox.max_message_bytes (u64_or_max d.buffer_capacity))) [
        | inl over ↦
            let which : bytes (u64_or_max d.buffer_capacity) mailbox.max_message_bytes ≡ v =
              ground (arith, h, over) in
            subst (IsOversized mailbox (data_message d))
              (ap (λ n. bytes n mailbox.max_message_bytes) (sym size) ∙ which)
              (too_many_bytes (ground (arith, over, size)))
        | inr under ↦
            elim (Bool-cases
              (ltb mailbox.max_message_resources (u64_or_max d.resources_capacity))) [
                | inr fits ↦ absurd (ground (arith, h, under, fits))
                | inl over ↦
                    let which : resources (u64_or_max d.resources_capacity)
                          mailbox.max_message_resources
                        ≡ v =
                      ground (arith, h, under, over) in
                    subst (IsOversized mailbox (data_message d))
                      (ap (λ n. resources n mailbox.max_message_resources) (sym slots) ∙ which)
                      (too_many_resources (ground (arith, under, size))
                        (ground (arith, over, slots)))
              ]
      ]
  limit_violation-IsOversized mailbox (link_died t) v h = absurd (ground (arith, h))
  limit_violation-IsOversized mailbox (process_died id reason) v h = absurd (ground (arith, h))

  limit_violation-IsWithin :
      (mailbox : MessageMailbox State) (m : Message)
      → limit_violation mailbox m ≡ none
      → IsWithin mailbox m
  unfolding limit_violation
  limit_violation-IsWithin mailbox (data_message d) h =
      within_limits (ground (arith, h, u64_or_max_lem d.buffer_capacity))
        (ground (arith, h, u64_or_max_lem d.resources_capacity))
  limit_violation-IsWithin mailbox (link_died t) h = unlimited_link
  limit_violation-IsWithin mailbox (process_died id reason) h = unlimited_end

module _ {State : Type 0} (sem : Semaphore State) where
  limit_violation-reserved :
      (mailbox mailbox' : MessageMailbox State) (m : Message) (permit : MailboxPermit)
      → try_reserve sem mailbox ≡ some (permit, mailbox')
      → (limit_violation mailbox' m ≡ limit_violation mailbox m)
        × (mailbox'.inner ≡ mailbox.inner)
        × (permit.semaphore ≡ mailbox'.admission_id)
        × (suc (sem.available_permits mailbox'.admission) ≡ sem.available_permits mailbox.admission)
  unfolding try_reserve limit_violation
  limit_violation-reserved mailbox mailbox' (data_message d) permit h =
      ground (arith, sem.try_acquire-Acquires mailbox.admission)
  limit_violation-reserved mailbox mailbox' (link_died t) permit h =
      ground (arith, sem.try_acquire-Acquires mailbox.admission)
  limit_violation-reserved mailbox mailbox' (process_died id reason) permit h =
      ground (arith, sem.try_acquire-Acquires mailbox.admission)

  try_reserve-full :
      (mailbox : MessageMailbox State)
      → try_reserve sem mailbox ≡ none
      → sem.available_permits mailbox.admission ≡ 0
  unfolding try_reserve
  try_reserve-full mailbox h = ground (arith, sem.try_acquire-Acquires mailbox.admission)

  push_within :
      (mailbox : MessageMailbox State) (m : Message) (permit : MailboxPermit)
      → limit_violation mailbox m ≡ none
      → permit.semaphore ≡ mailbox.admission_id
      → (woken : Option ℕ) × (push_with_permit mailbox m permit ≡ (
        pushed woken,
        record mailbox {
          inner = (deliver (record { message = m; permit = permit }) mailbox.inner).0;
        },
      ))
  unfolding push_with_permit
  push_within mailbox m permit within own =
      ((deliver (record { message = m; permit = permit }) mailbox.inner).1, ground arith)

  -- The three outcomes of a push, in the order in which the code tests for them.
  pub data PushOutcome (mailbox : MessageMailbox State) (m : Message)
      : Pushed × MessageMailbox State → Type 0 where
    oversized :
        (v : MessageLimitViolation)
        → IsOversized mailbox m v
        → PushOutcome mailbox m (rejected (too_big v m none), mailbox)
    no_slot :
        IsWithin mailbox m
        → sem.available_permits mailbox.admission ≡ 0
        → PushOutcome mailbox m (rejected (full m), mailbox)
    admitted :
        (woken : Option ℕ) (mailbox' : MessageMailbox State) (permit : MailboxPermit)
        → IsWithin mailbox m
        → suc (sem.available_permits mailbox'.admission) ≡ sem.available_permits mailbox.admission
        → pending mailbox'.inner
          ≡ pending mailbox.inner ++ record { message = m; permit = permit } ∷ []
        → IsWellFormed mailbox'.inner
        → PushOutcome mailbox m (pushed woken, mailbox')

  -- A push returns a data message that allocates more bytes than a message may, or else more resource
  -- slots, whatever slots of the mailbox are free, with the amount and the limit; then it
  -- returns a message for which no slot is free, and puts every other behind all that are pending, on one slot. A push
  -- that fails leaves the mailbox as it was.
  pub push-PushOutcome :
      (mailbox : MessageMailbox State) (m : Message)
      → IsWellFormed mailbox.inner
      → PushOutcome mailbox m (push sem mailbox m)
  unfolding push
  push-PushOutcome mailbox m v = elim (Option-cases (limit_violation mailbox m)) [
    | inr (l, e) ↦ rw (e, push) (oversized l (limit_violation-IsOversized mailbox m l e))
    | inl within ↦ rw (within, push) (reserving within (Option-cases (try_reserve sem mailbox)))
  ]
    where
      reserving :
          limit_violation mailbox m ≡ none
          → (try_reserve sem mailbox ≡ none)
            ⊎ ((r : MailboxPermit × MessageMailbox State) × (try_reserve sem mailbox ≡ some r))
          → PushOutcome mailbox m (elim (try_reserve sem mailbox) [
            | none ↦ (rejected (full m), mailbox)
            | some (permit, mailbox') ↦ push_with_permit mailbox' m permit
          ])
      reserving within (inl e) =
          rw e (no_slot (limit_violation-IsWithin mailbox m within) (try_reserve-full mailbox e))
      reserving within (inr ((permit, reserved), e)) =
          let (same, inner, own, one) = limit_violation-reserved mailbox reserved m permit e in
          let (woken, delivered) = push_within reserved m permit (same ∙ within) own in
          rw e (
            rw delivered (
              admitted woken _ permit (limit_violation-IsWithin mailbox m within) one
                (rw inner (pending-deliver _ mailbox.inner v))
                (rw inner (deliver-IsWellFormed _ mailbox.inner v))))
