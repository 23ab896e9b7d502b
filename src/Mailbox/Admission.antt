-- ===== src/Mailbox/Admission.antt =====
-- The slots of a mailbox: every slot is free, or reserved by a permit that somebody holds, or taken
-- by a message that is pending or in a snapshot. A `World` is a mailbox with the permits and
-- snapshots of it that are outside: the signal queue, errors, and a hot reload hold them.
use lunatic.Prelude.{
  ℕ, suc, ◌+◌, ◌≡◌, refl, sym, ap, ◌∙◌, ◌⊎◌, inl, inr, List, [], ◌∷◌, Option, none, some, arith,
  length, extract, length-append, length-Splits, extract-Splits,
}
use lunatic.External.Semaphore.{Semaphore}
use lunatic.Message.{Message, Tag}
use lunatic.Mailbox.{
  MessageMailbox, InnerMessageMailbox, AdmittedMessage, MailboxPermit, MailboxPushError, Pushed,
  pushed, rejected, deliver, matches, push_with_permit, poll, pop, pop_skip_search, hand_out,
  into_parts, len, try_reserve,
}
use lunatic.Mailbox.Order.{
  pending, IsWellFormed, length-restore_found, push_with_permit-pushed, pop_lem,
  deliver-IsWellFormed, pending-deliver,
}

pub len-pending :
    {State : Type 0} (mailbox : MessageMailbox State) → len mailbox ≡ length (pending mailbox.inner)
unfolding len pending
len-pending mailbox = sym (length-restore_found mailbox.found mailbox.messages)

len-deliver :
    (m : AdmittedMessage) (inner : InnerMessageMailbox)
    → IsWellFormed inner
    → length (pending (deliver m inner).0) ≡ suc (length (pending inner))
len-deliver m inner v =
    ap length (pending-deliver m inner v) ∙ omega (arith, length-append (pending inner) (m ∷ []))

pub push_with_permit-rejected :
    {State : Type 0} (mailbox mailbox' : MessageMailbox State) (m : Message)
    (permit : MailboxPermit) (e : MailboxPushError)
    → push_with_permit mailbox m permit ≡ (rejected e, mailbox')
    → (into_parts e ≡ (m, some permit)) × (mailbox' ≡ mailbox)
unfolding push_with_permit into_parts
push_with_permit-rejected mailbox mailbox' m permit e h = ground arith

module _ {State : Type 0} (sem : Semaphore State) where
  -- The slots that are free or taken by pending messages.
  unfoldable pub slots : MessageMailbox State → ℕ
  slots mailbox = sem.available_permits mailbox.admission + length (pending mailbox.inner)

  pub slots-try_reserve :
      (mailbox mailbox' : MessageMailbox State) (permit : MailboxPermit)
      → try_reserve sem mailbox ≡ some (permit, mailbox')
      → suc (slots mailbox') ≡ slots mailbox
  unfolding try_reserve slots
  slots-try_reserve mailbox mailbox' permit h =
      ground (arith, sem.try_acquire-Acquires mailbox.admission)

  pub slots-hand_out :
      (m : AdmittedMessage) (mailbox : MessageMailbox State)
      → slots (hand_out sem m mailbox).1 ≡ suc (slots mailbox)
  unfolding hand_out slots
  slots-hand_out m mailbox = omega (arith, sem.available-release mailbox.admission)

  poll_slots :
      (waker : ℕ) (found : Option (ℕ × AdmittedMessage)) (mailbox : MessageMailbox State)
      → mailbox.found ≡ found
      → slots (poll sem waker mailbox).1 ≡ slots mailbox
  unfolding poll slots pending
  poll_slots waker none mailbox e = rw (e, poll) (rw e refl)
  poll_slots waker (some (i, m)) mailbox e =
      rw (e, poll)
        (omega (
          arith,
          sem.available-release mailbox.admission,
          length-restore_found (some (i, m)) mailbox.messages,
        ))

  pub slots-poll :
      (waker : ℕ) (mailbox : MessageMailbox State)
      → slots (poll sem waker mailbox).1 ≡ slots mailbox
  slots-poll waker mailbox = poll_slots waker mailbox.found mailbox refl

  pop_slots :
      (tags : Option (List Tag)) (waker : ℕ) (mailbox : MessageMailbox State)
      (r : Option (AdmittedMessage × List AdmittedMessage))
      → extract (λ m. matches tags m.message) (pending mailbox.inner) ≡ r
      → slots (pop sem tags waker mailbox).1 ≡ slots mailbox
  unfolding slots hand_out pending
  pop_slots tags waker mailbox none e = rw (pop_lem sem tags waker mailbox none e)
  pop_slots tags waker mailbox (some (m, rest)) e =
      rw (pop_lem sem tags waker mailbox (some (m, rest)) e) (
        omega (
          arith,
          sem.available-release mailbox.admission,
          length-Splits (extract-Splits _ (pending mailbox.inner) m rest e).0,
        ))

  pub slots-pop :
      (tags : Option (List Tag)) (waker : ℕ) (mailbox : MessageMailbox State)
      → slots (pop sem tags waker mailbox).1 ≡ slots mailbox
  slots-pop tags waker mailbox = pop_slots tags waker mailbox _ refl

  pub slots-pop_skip_search :
      (tags : Option (List Tag)) (waker : ℕ) (mailbox : MessageMailbox State)
      → slots (pop_skip_search sem tags waker mailbox).1 ≡ slots mailbox
  unfolding pop_skip_search poll slots pending
  slots-pop_skip_search tags waker mailbox = refl

  slots-deliver :
      (m : AdmittedMessage) (mailbox : MessageMailbox State)
      → IsWellFormed mailbox.inner
      → slots (record mailbox { inner = (deliver m mailbox.inner).0 }) ≡ suc (slots mailbox)
  unfolding slots
  slots-deliver m mailbox v = omega (arith, len-deliver m mailbox.inner v)

  -- A push with a permit uses the permit up, or gives message and permit back and changes nothing.
  pub push_with_permit_slots :
      (mailbox mailbox' : MessageMailbox State) (m : Message) (permit : MailboxPermit) (r : Pushed)
      → IsWellFormed mailbox.inner
      → push_with_permit mailbox m permit ≡ (r, mailbox')
      → ((woken : Option ℕ) × (r ≡ pushed woken)
          × (slots mailbox' ≡ suc (slots mailbox))
          × IsWellFormed mailbox'.inner)
        ⊎ ((e : MailboxPushError) × (r ≡ rejected e)
            × (into_parts e ≡ (m, some permit))
            × (mailbox' ≡ mailbox))
  push_with_permit_slots mailbox mailbox' m permit (pushed woken) v h =
      let (e, _, _) = push_with_permit-pushed mailbox mailbox' m permit woken h in
      inl (
        woken,
        refl,
        rw e (slots-deliver _ mailbox v),
        rw e (deliver-IsWellFormed _ mailbox.inner v),
      )
  push_with_permit_slots mailbox mailbox' m permit (rejected e) v h =
      let (parts, same) = push_with_permit-rejected mailbox mailbox' m permit e h in
      inr (e, refl, parts, same)
